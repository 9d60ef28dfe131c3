-- ===== src/Server/Roles.antt =====
-- The endpoints that the server, backend/app/api/v1/router.py, keeps for administrators by `require_admin` of
-- backend/app/core/deps.py, and what the pages ask of them. The token that a request carries names the
-- user, whose role is the one that the store of the client holds.
use socblitz.Common.{
  String, Bool, true, false, not, ◌&&◌, ◌||◌, ◌==◌, ◌≡◌, refl, Option, none, some, List, [], ◌∷◌,
  any, any-append, arith,
}
use socblitz.Api.{
  Call, account, platform, engine, AccountCall, PlatformCall, EngineCall, list_users, create_user,
  mfa_reset_user, list_tenants, create_tenant, list_connectors, update_connector, verify_connector,
  delete_agent, engine_save_parser, engine_delete_parser,
}
use socblitz.Ui.{Effect, send, Query}
use socblitz.Settings
use socblitz.Settings.Queries.{queries}
use socblitz.Engine.Parsers

abbrev account_needs_admin : AccountCall → Bool
account_needs_admin list_users = true
account_needs_admin (create_user j) = true
account_needs_admin (mfa_reset_user id) = true
account_needs_admin _ = false

-- the routers of the organizations and of the connectors are for administrators as a whole
abbrev platform_needs_admin : PlatformCall → Bool
platform_needs_admin list_tenants = true
platform_needs_admin (create_tenant j) = true
platform_needs_admin list_connectors = true
platform_needs_admin (update_connector id j) = true
platform_needs_admin (verify_connector id) = true
platform_needs_admin (delete_agent id) = true
platform_needs_admin _ = false

abbrev engine_needs_admin : EngineCall → Bool
engine_needs_admin (engine_save_parser yaml) = true
engine_needs_admin (engine_delete_parser name) = true
engine_needs_admin _ = false

-- the endpoint of a call has the dependency `require_admin()`
abbrev pub needs_admin : Call → Bool
needs_admin (account c) = account_needs_admin c
needs_admin (platform c) = platform_needs_admin c
needs_admin (engine c) = engine_needs_admin c
needs_admin _ = false

-- `current_user.role not in roles`
abbrev is_admin : Option String → Bool
is_admin none = false
is_admin (some r) = r == "admin"

-- `require_admin`: 403, or the endpoint runs
unfoldable pub permits : Option String → Call → Bool
permits role c = not (needs_admin c) || is_admin role

-- a call that the server answers with 403
abbrev pub is_forbidden : Option String → Effect → Bool
is_forbidden role (send c) = not (permits role c)
is_forbidden role _ = false

-- a query that is asked although the server answers it with 403
abbrev pub asks_forbidden : Option String → Query → Bool
asks_forbidden role q = q.enabled && not (permits role q.call)

settings-act :
    (role : Option String) (p : Settings.Settings) (e : Settings.Event)
    → any (is_forbidden role) (Settings.act role p e).1 ≡ false
unfolding Settings.act permits
settings-act role p e = ground arith

settings-effects :
    (role : Option String) (p : Settings.Settings) (es : List Settings.Event)
    → any (is_forbidden role) (Settings.effects role p es) ≡ false
unfolding Settings.effects
settings-effects role p [] = refl
settings-effects role p (e ∷ es) =
    rw
      (
        any-append (is_forbidden role) (Settings.act role p e).1
            (Settings.effects role (Settings.act role p e).0 es),
        settings-act role p e,
        settings-effects role (Settings.act role p e).0 es,
      )
      refl

parsers-act :
    (role : Option String) (p : Parsers.Parsers) (e : Parsers.Event)
    → any (is_forbidden role) (Parsers.act role p e).1 ≡ false
unfolding Parsers.act Parsers.delete_current permits
parsers-act role p e = ground arith

parsers-effects :
    (role : Option String) (p : Parsers.Parsers) (es : List Parsers.Event)
    → any (is_forbidden role) (Parsers.effects role p es) ≡ false
unfolding Parsers.effects
parsers-effects role p [] = refl
parsers-effects role p (e ∷ es) =
    rw
      (
        any-append (is_forbidden role) (Parsers.act role p e).1
            (Parsers.effects role (Parsers.step role p e) es),
        parsers-act role p e,
        parsers-effects role (Parsers.step role p e) es,
      )
      refl

-- Whatever the role of the user, whatever happens on the settings page and on the tab of the parsers, and
-- from any state of them: the server answers none of their calls, and none of the queries of the settings page
-- and of the list of parsers, with 403.
pub pages-permitted :
    (role : Option String) (p : Settings.Settings) (es : List Settings.Event) (q : Parsers.Parsers)
    (fs : List Parsers.Event)
    → (any (is_forbidden role) (Settings.effects role p es) ≡ false)
      × (any (is_forbidden role) (Parsers.effects role q fs) ≡ false)
      × (any (asks_forbidden role) (queries role) ≡ false)
      × (asks_forbidden role Parsers.parsers_query ≡ false)
unfolding queries permits Parsers.parsers_query
pages-permitted role p es q fs =
    (settings-effects role p es, parsers-effects role q fs, ground arith, ground arith)
