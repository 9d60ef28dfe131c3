-- ===== src/Settings/Laws.antt =====
-- What the settings page sends, by role, and what its forms keep.
use socblitz.Common.{
  String, Bool, true, false, ◌&&◌, ◌==◌, ◌≡◌, refl, Option, none, some, List, [], ◌∷◌, any,
  any-append, Bool-cases, inl, inr, all, get_elem?, arith, eq_refl,
}
use socblitz.Api.{account, platform, create_user, mfa_reset_user, create_tenant}
use socblitz.Ui.{Effect, send}
use socblitz.Settings.{
  User, Settings, Event, reset_mfa, users_query, tenants_query, is_admin, can_reset, is_other, act,
  effects, administer, reset_row,
}

-- a call that an administrator only may make
abbrev pub is_administration : Effect → Bool
is_administration (send (account (create_user j))) = true
is_administration (send (account (mfa_reset_user id))) = true
is_administration (send (platform (create_tenant j))) = true
is_administration _ = false

act-is_administration :
    (own : Option String) (p : Settings) (e : Event)
    → is_admin own ≡ false
    → any is_administration (act own p e).1 ≡ false
unfolding act
act-is_administration own p e h = ground arith

effects-quiet :
    (own : Option String) (p : Settings) (es : List Event)
    → is_admin own ≡ false
    → any is_administration (effects own p es) ≡ false
unfolding effects
effects-quiet own p [] h = refl
effects-quiet own p (e ∷ es) h =
    rw
      (
        any-append is_administration (act own p e).1 (effects own (act own p e).0 es),
        act-is_administration own p e h,
        effects-quiet own (act own p e).0 es h,
      )
      refl

-- For a user who is not an administrator the page neither asks for the users nor for the organizations,
-- and whatever happens it sends no call that creates a user or an organization or resets a second factor.
pub effects-is_administration :
    (own : Option String) (p : Settings) (es : List Event)
    → is_admin own ≡ false
    → ((users_query own).enabled ≡ false)
      × ((tenants_query own).enabled ≡ false)
      × (any is_administration (effects own p es) ≡ false)
unfolding users_query tenants_query
effects-is_administration own p es h = (h, h, effects-quiet own p es h)

-- the users whose second factor calls reset
abbrev pub resets : List Effect → List String
resets [] = []
resets (send (account (mfa_reset_user id)) ∷ fs) = id ∷ resets fs
resets (_ ∷ fs) = resets fs

-- the row of a reset
abbrev pub reset_target : Settings → Event → Option User
reset_target p (reset_mfa row confirmed) = get_elem? p.users row
reset_target p _ = none

-- a user who has a second factor and is not the one signed in
abbrev pub may_reset : Option User → Option User → String → Bool
may_reset m none id = false
may_reset m (some u) id = u.mfa_enabled && is_other m u && u.id == id

reset_row-may_reset :
    (p : Settings) (o : Option User) (confirmed : Bool)
    → all (may_reset p.me o) (resets (reset_row p o confirmed).1) ≡ true
unfolding reset_row can_reset
reset_row-may_reset p none confirmed = refl
reset_row-may_reset p (some u) confirmed = ground (arith, eq_refl u.id)

-- A call that resets a second factor names the user of the row, who has one and, once the profile is
-- loaded, is not the user who is signed in.
pub act-may_reset :
    (own : Option String) (p : Settings) (e : Event)
    → all (may_reset p.me (reset_target p e)) (resets (act own p e).1) ≡ true
unfolding act administer
act-may_reset own p (reset_mfa row confirmed) = elim (Bool-cases (is_admin own)) [
  | inl a ↦ rw a (reset_row-may_reset p (get_elem? p.users row) confirmed)
  | inr a ↦ rw a refl
]
act-may_reset own p e = ground arith

-- As long as the profile is not loaded, an administrator who has a second factor can reset it in the own
-- row: the call is sent.
pub act-reset_own :
    (own : Option String) (p : Settings) (u : User) (us : List User)
    → is_admin own ≡ true
    → u.mfa_enabled ≡ true
    → p.resetting_mfa ≡ false
    → resets (act own (record p { me = none; users = u ∷ us }) (reset_mfa 0 true)).1 ≡ u.id ∷ []
unfolding act administer reset_row can_reset
act-reset_own own p u us h m r = ground arith
