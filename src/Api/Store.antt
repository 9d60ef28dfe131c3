-- ===== src/Api/Store.antt =====
-- The store `useAuthStore`. That the browser keeps it between visits is left out.
use socblitz.Common.{String, Option, none, some}

pub record AuthState : Type 0 where
  pub token : Option String
  pub user_id : Option String
  pub role : Option String
  pub full_name : Option String

unfoldable pub signed_out : AuthState
signed_out = record { token = none; user_id = none; role = none; full_name = none }

unfoldable pub set_auth : String → String → String → String → AuthState → AuthState
set_auth token user_id role full_name s = record s {
  token = some token;
  user_id = some user_id;
  role = some role;
  full_name = some full_name;
}

unfoldable pub clear_auth : AuthState → AuthState
clear_auth s = record s { token = none; user_id = none; role = none; full_name = none }
