-- ===== src/Api/Client.antt =====
-- The interceptors of the API client.
use socblitz.Common.{
  ℕ, String, Bool, false, not, ◌&&◌, ◌||◌, Option, none, some, List, [], eqb, codes, occurs, truthy,
  if◌then◌else◌,
}
use socblitz.Api.Http.{HttpRequest}
use socblitz.Api.Store.{AuthState, clear_auth}

pub record SentRequest : Type 0 where
  pub config : HttpRequest
  -- the token of the header `Authorization: Bearer …`
  pub bearer : Option String

-- `if (token)`: neither null nor empty
abbrev pub usable : Option String → Option String
usable none = none
usable (some token) = if truthy token then some token else none

-- the request interceptor
unfoldable pub authorize : AuthState → HttpRequest → SentRequest
authorize s config = record { config = config; bearer = usable s.token }

-- What the response interceptor reads of an axios error: the URL, if there is a config with one,
-- and the status, if there was a response.
pub record ApiError : Type 0 where
  pub url : Option (List ℕ)
  pub status : Option ℕ

-- `window.location.href = '/login'`, or nothing
pub data Redirect : Type 0 where
  stay : Redirect
  to_login : Redirect

abbrev pub url_or_empty : Option (List ℕ) → List ℕ
url_or_empty none = []
url_or_empty (some url) = url

unfoldable pub is_auth_attempt : List ℕ → Bool
is_auth_attempt url = occurs url (codes "/auth/login") || occurs url (codes "/auth/mfa/verify")

abbrev pub is_401 : Option ℕ → Bool
is_401 none = false
is_401 (some status) = eqb status 401

-- the response interceptor; the error is passed on either way
unfoldable pub on_response_error : AuthState → ApiError → AuthState × Redirect
unfolding is_auth_attempt clear_auth
on_response_error s err =
    if is_401 err.status && not (is_auth_attempt (url_or_empty err.url))
    then (clear_auth s, to_login)
    else (s, stay)
