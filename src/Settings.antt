-- ===== src/Settings.antt =====
-- The settings page, frontend/src/pages/Settings.tsx: the profile, and for an administrator the users and
-- the organizations. A control that is not shown or is disabled does nothing.
pub mod Laws
pub mod Queries
use socblitz.Common.{
  ℕ, String, Bool, true, false, not, ◌&&◌, ◌==◌, Option, none, some, List, [], ◌∷◌, ◌++◌, found_is,
  truthy, get_elem?, or_text, if◌then◌else◌,
}
use socblitz.Common.Json.{Json, obj, str, end, field}
use socblitz.Api.{
  account, platform, me, list_users, create_user, mfa_reset_user, list_tenants, create_tenant,
}
use socblitz.Ui.{Effect, Query, send, invalidate, toast_error, success, navigate, Detail, detail_or}

-- the form of `newUser`
pub record NewUser : Type 0 where
  pub email : String
  pub password : String
  pub full_name : String
  pub role : String

unfoldable pub empty_user : NewUser
empty_user = record { email = ""; password = ""; full_name = ""; role = "analyst" }

-- the form of `newTenant`
pub record NewTenant : Type 0 where
  pub code : String
  pub name : String
  pub description : String

unfoldable pub empty_tenant : NewTenant
empty_tenant = record { code = ""; name = ""; description = "" }

-- what the page reads of a user
pub record User : Type 0 where
  pub id : String
  pub email : String
  pub mfa_enabled : Bool

-- The state, with what the queries have answered so far; the flags are `isPending` of the mutations.
pub record Settings : Type 0 where
  pub me : Option User
  pub users : List User
  pub show_user_form : Bool
  pub new_user : NewUser
  pub show_tenant_form : Bool
  pub new_tenant : NewTenant
  pub creating_user : Bool
  pub resetting_mfa : Bool
  pub creating_tenant : Bool

unfoldable pub opened : Settings
unfolding empty_user empty_tenant
opened = record {
  me = none;
  users = [];
  show_user_form = false;
  new_user = empty_user;
  show_tenant_form = false;
  new_tenant = empty_tenant;
  creating_user = false;
  resetting_mfa = false;
  creating_tenant = false;
}

-- `isAdmin`
abbrev pub is_admin : Option String → Bool
is_admin role = found_is role "admin"

unfoldable pub me_query : Query
me_query = record { key = str "me" ∷ []; call = account me; enabled = true }

unfoldable pub users_query : Option String → Query
users_query role = record {
  key = str "users" ∷ [];
  call = account list_users;
  enabled = is_admin role;
}

unfoldable pub tenants_query : Option String → Query
tenants_query role = record {
  key = str "tenants" ∷ [];
  call = platform list_tenants;
  enabled = is_admin role;
}

pub data UserField : Type 0 where
  email password full_name role : UserField

pub data TenantField : Type 0 where
  code name description : TenantField

-- `setNewUser({ ...newUser, [k]: v })`
unfoldable pub set_user : UserField → String → NewUser → NewUser
set_user email s u = record u { email = s }
set_user password s u = record u { password = s }
set_user full_name s u = record u { full_name = s }
set_user role s u = record u { role = s }

-- `setNewTenant({ ...newTenant, [k]: v })`
unfoldable pub set_tenant : TenantField → String → NewTenant → NewTenant
set_tenant code s t = record t { code = s }
set_tenant name s t = record t { name = s }
set_tenant description s t = record t { description = s }

unfoldable pub user_json : NewUser → Json
user_json u = obj (
    field "email" (str u.email) (
      field "password" (str u.password)
        (field "full_name" (str u.full_name) (field "role" (str u.role) end))))

unfoldable pub tenant_json : NewTenant → Json
tenant_json t = obj (
    field "code" (str t.code)
      (field "name" (str t.name) (field "description" (str t.description) end)))

pub data Event : Type 0 where
  me_loaded : User → Event
  users_loaded : List User → Event
  open_account : Event
  toggle_user_form : Event
  cancel_user_form : Event
  edit_user : UserField → String → Event
  submit_user : Event
  -- the button Reset MFA of a row, with the answer to its question
  reset_mfa : (row : ℕ) (confirmed : Bool) → Event
  toggle_tenant_form : Event
  cancel_tenant_form : Event
  edit_tenant : TenantField → String → Event
  submit_tenant : Event
  -- answers of the server
  user_created : Event
  create_user_failed : Detail → Event
  mfa_was_reset : Event
  reset_failed : Detail → Event
  tenant_created : Event
  create_tenant_failed : Detail → Event

-- `u.id !== me?.id`
abbrev pub is_other : Option User → User → Bool
is_other none u = true
is_other (some m) u = not (u.id == m.id)

-- the row has the button
unfoldable pub can_reset : Option User → User → Bool
can_reset m u = u.mfa_enabled && is_other m u

unfoldable pub reset_row : Settings → Option User → Bool → Settings × List Effect
unfolding can_reset
reset_row p none confirmed = (p, [])
reset_row p (some u) confirmed =
    if can_reset p.me u && not p.resetting_mfa && confirmed
    then (record p { resetting_mfa = true }, send (account (mfa_reset_user u.id)) ∷ [])
    else (p, [])

-- the browser does not submit a form while a required field of it is empty
submitted_user : Settings → Settings × List Effect
unfolding user_json
submitted_user p =
    if p.show_user_form
      && truthy p.new_user.email
      && truthy p.new_user.password
      && not p.creating_user
    then (
      record p { creating_user = true },
      send (account (create_user (user_json p.new_user))) ∷ [],
    )
    else (p, [])

submitted_tenant : Settings → Settings × List Effect
unfolding tenant_json
submitted_tenant p =
    if p.show_tenant_form
      && truthy p.new_tenant.code
      && truthy p.new_tenant.name
      && not p.creating_tenant
    then (
      record p { creating_tenant = true },
      send (platform (create_tenant (tenant_json p.new_tenant))) ∷ [],
    )
    else (p, [])

-- the controls that only an administrator is shown
unfoldable pub administer : Settings → Event → Settings × List Effect
unfolding set_user set_tenant reset_row submitted_user submitted_tenant
administer p toggle_user_form = (record p { show_user_form = not p.show_user_form }, [])
administer p cancel_user_form = (record p { show_user_form = false }, [])
administer p (edit_user k s) =
    if p.show_user_form then (record p { new_user = set_user k s p.new_user }, []) else (p, [])
administer p submit_user = submitted_user p
administer p (reset_mfa row confirmed) = reset_row p (get_elem? p.users row) confirmed
administer p toggle_tenant_form = (record p { show_tenant_form = not p.show_tenant_form }, [])
administer p cancel_tenant_form = (record p { show_tenant_form = false }, [])
administer p (edit_tenant k s) =
    if p.show_tenant_form
    then (record p { new_tenant = set_tenant k s p.new_tenant }, [])
    else (p, [])
administer p submit_tenant = submitted_tenant p
administer p _ = (p, [])

unfoldable pub act : Option String → Settings → Event → Settings × List Effect
unfolding administer empty_user empty_tenant
act own p (me_loaded u) = (record p { me = some u }, [])
act own p (users_loaded us) = (record p { users = us }, [])
act own p open_account = (p, navigate "/account" ∷ [])
act own p user_created =
    if p.creating_user
    then (
      record p { new_user = empty_user; show_user_form = false; creating_user = false },
      success "User created" ∷ invalidate (str "users" ∷ []) ∷ [],
    )
    else (p, [])
act own p (create_user_failed d) =
    if p.creating_user
    then (
      record p { creating_user = false },
      toast_error (detail_or d "Failed to create user") ∷ [],
    )
    else (p, [])
act own p mfa_was_reset =
    if p.resetting_mfa
    then (
      record p { resetting_mfa = false },
      success "MFA reset — user can re-enroll at next sign-in" ∷ invalidate (str "users" ∷ []) ∷ [],
    )
    else (p, [])
act own p (reset_failed d) =
    if p.resetting_mfa
    then (record p { resetting_mfa = false }, toast_error (detail_or d "Failed to reset MFA") ∷ [])
    else (p, [])
act own p tenant_created =
    if p.creating_tenant
    then (
      record p { new_tenant = empty_tenant; show_tenant_form = false; creating_tenant = false },
      success "Organization created" ∷ invalidate (str "tenants" ∷ []) ∷ [],
    )
    else (p, [])
act own p (create_tenant_failed d) =
    if p.creating_tenant
    then (
      record p { creating_tenant = false },
      toast_error (detail_or d "Failed to create organization") ∷ [],
    )
    else (p, [])
act own p e = if is_admin own then administer p e else (p, [])

unfoldable pub effects : Option String → Settings → List Event → List Effect
effects own p [] = []
effects own p (e ∷ es) = (act own p e).1 ++ effects own (act own p e).0 es

unfoldable pub run : Option String → Settings → List Event → Settings
run own p [] = p
run own p (e ∷ es) = run own (act own p e).0 es
