-- ===== src/Server/Tokens.antt =====
-- The tokens of the server, backend/app/core/auth.py, and who the bearer of one is taken for: `get_current_user`
-- of backend/app/core/deps.py. Times are in seconds. Encoding and decoding are those of the library
-- python-jose under the key of the server, and so parameters, like the texts that tokens are.
use socblitz.Common.{
  ℕ, ◌+◌, ◌*◌, ◌<◌, String, Bool, true, ◌&&◌, ◌==◌, ◌≡◌, ap, Option, none, some, List, [], ◌∷◌,
  find?, arith,
}
use socblitz.Server.{Answer, reply, raise}
use socblitz.Server.Mfa.{User, Account, LoginResponse, tokens, challenge, login}

pub record Claims : Type 0 where
  pub sub : Option String
  pub exp : ℕ
  pub iat : ℕ
  -- `type`
  pub kind : String
  pub scopes : List String

-- a row of the table of users, as far as the endpoints read it
pub record Row : Type 0 where
  pub id : String
  pub role : String
  pub user : User

-- what the client gets of a response
pub data Issued (Token : Type 0) : Type 0 where
  granted : (access_token refresh_token : Token) → Issued Token
  mfa_required : (mfa_token : Token) → Issued Token

abbrev pub credentials_exception : Answer Row
credentials_exception = raise 401 "Could not validate credentials"

-- `select(User).where(User.id == user_id, User.is_active == True)`
unfoldable pub active_user : List Row → String → Option Row
active_user rows user_id = find? (λ r. r.id == user_id && r.user.is_active) rows

abbrev pub user_found : Option Row → Answer Row
user_found none = credentials_exception
user_found (some r) = reply r

abbrev pub user_named : List Row → Option String → Answer Row
user_named rows none = credentials_exception
user_named rows (some user_id) = user_found (active_user rows user_id)

abbrev pub user_claimed : List Row → Option Claims → Answer Row
user_claimed rows none = credentials_exception
user_claimed rows (some claims) = user_named rows claims.sub

-- the outcome of the dependency, without the row
abbrev pub session_of : Answer Row → Answer Unit
session_of (raise status detail) = raise status detail
session_of (reply r) = reply tt

module _ {Token : Type 0} (encode : Claims → Token)
    (decode : (now : ℕ) → Token → Option Claims) where
  unfoldable pub create_access_token :
      (minutes : ℕ) → (now : ℕ) → (subject : String) → (scopes : List String) → Token
  create_access_token minutes now subject scopes = encode (record {
    sub = some subject;
    exp = now + 60 * minutes;
    iat = now;
    kind = "access";
    scopes = scopes;
  })

  unfoldable pub create_refresh_token : (now : ℕ) → (subject : String) → Token
  create_refresh_token now subject =
      encode (record {
        sub = some subject;
        exp = now + 604800;
        iat = now;
        kind = "refresh";
        scopes = [];
      })

  unfoldable pub create_mfa_token : (now : ℕ) → (subject : String) → Token
  create_mfa_token now subject =
      encode (record { sub = some subject; exp = now + 300; iat = now; kind = "mfa"; scopes = [] })

  -- the tokens of a response of `login` and `mfa_verify`, `_issue_tokens` in the first case
  unfoldable pub issued : (minutes : ℕ) → (now : ℕ) → Row → LoginResponse → Issued Token
  unfolding create_access_token create_refresh_token create_mfa_token
  issued minutes now r tokens =
      granted (create_access_token minutes now r.id (r.role ∷ [])) (create_refresh_token now r.id)
  issued minutes now r challenge = mfa_required (create_mfa_token now r.id)

  -- `get_current_user`: the user that a request is from, by the token that it carries
  unfoldable pub get_current_user : (now : ℕ) → List Row → Option Token → Answer Row
  get_current_user now rows none = credentials_exception
  get_current_user now rows (some credentials) = user_claimed rows (decode now credentials)

  -- who the bearer of the token that a response carries, the access token or the challenge, is taken for
  abbrev pub bearer_of : Issued Token → Token
  bearer_of (granted access_token refresh_token) = access_token
  bearer_of (mfa_required mfa_token) = mfa_token

  -- Where decoding a token gives its claims until the token expires: the right password alone, given for an
  -- active account with the second factor on, gets a challenge, and for five minutes that challenge is taken as
  -- the token of the account by every endpoint for signed-in users, without a code.
  pub challenge-is_admitted :
      ((now : ℕ) (claims : Claims) → now < claims.exp → decode now (encode claims) ≡ some claims)
      → (password_ok : String → Bool) (a : Account) (password : String) (rows : List Row) (r : Row)
        (minutes now later : ℕ)
      → password_ok password ≡ true
      → a.user ≡ r.user
      → r.user.mfa_enabled ≡ true
      → r.user.is_active ≡ true
      → active_user rows r.id ≡ some r
      → later < now + 300
      → (login password_ok a password ≡ reply challenge)
        × (get_current_user later rows (some (bearer_of (issued minutes now r challenge)))
            ≡ reply r)
  unfolding login issued create_mfa_token get_current_user
  challenge-is_admitted d password_ok a password rows r minutes now later p u m i f l = (
    ground (arith, p, ap User.mfa_enabled u, ap User.is_active u),
    rw
        (ap (user_claimed rows) (
          d later
            (record { sub = some r.id; exp = now + 300; iat = now; kind = "mfa"; scopes = [] }) l))
        (ap user_found f),
  )
