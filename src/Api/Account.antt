-- ===== src/Api/Account.antt =====
-- The sign-in, user and two-factor helpers of the API client.
use socblitz.Common.{ℕ, String, none, some, [], ◌∷◌}
use socblitz.Common.Json.{Json, obj, str, end, field}
use socblitz.Api.Http.{
  HttpRequest, form, fetch, post, get_url, post_url, post_json, path, path_id_sub,
}

pub data AccountCall : Type 0 where
  login : (email password : String) → AccountCall
  me : AccountCall
  list_users : AccountCall
  create_user : Json → AccountCall
  mfa_verify : (mfa_token code : String) → AccountCall
  mfa_setup : AccountCall
  mfa_enable : (code : String) → AccountCall
  mfa_disable : (password code : String) → AccountCall
  mfa_reset_user : (user_id : String) → AccountCall

-- `timeout: 15_000`
abbrev sign_in_timeout : ℕ
sign_in_timeout = 15000

unfoldable pub account_request : AccountCall → HttpRequest
account_request (login email password) =
    record (fetch post (path "/auth/login") none
      (form (("username", email) ∷ ("password", password) ∷ []))) { timeout = some sign_in_timeout }
account_request me = get_url (path "/auth/me")
account_request list_users = get_url (path "/auth/users")
account_request (create_user j) = post_json (path "/auth/users") j
account_request (mfa_verify mfa_token code) =
    record (post_json (path "/auth/mfa/verify")
      (obj (field "mfa_token" (str mfa_token) (field "code" (str code) end)))) {
        timeout = some sign_in_timeout;
      }
account_request mfa_setup = post_url (path "/auth/mfa/setup")
account_request (mfa_enable code) =
    post_json (path "/auth/mfa/enable") (obj (field "code" (str code) end))
account_request (mfa_disable password code) =
    post_json (path "/auth/mfa/disable")
      (obj (field "password" (str password) (field "code" (str code) end)))
account_request (mfa_reset_user user_id) =
    post_url (path_id_sub "/auth/users/" user_id "/mfa/reset")
