-- ===== src/Api/Calls.antt =====
-- Every helper of the object `api`, and the request that it sends.
use socblitz.Common.{Bool, true, false}
use socblitz.Api.Http.{HttpRequest}
use socblitz.Api.Account.{AccountCall, login, mfa_verify, account_request}
use socblitz.Api.Alerts.{AlertCall, alert_request}
use socblitz.Api.Cases.{CaseCall, case_request}
use socblitz.Api.Platform.{PlatformCall, platform_request}
use socblitz.Api.Engine.{EngineCall, engine_request}
use socblitz.Api.Intel.{IntelCall, intel_request}

pub data Call : Type 0 where
  account : AccountCall → Call
  alerts : AlertCall → Call
  cases : CaseCall → Call
  platform : PlatformCall → Call
  engine : EngineCall → Call
  intel : IntelCall → Call

unfoldable pub request : Call → HttpRequest
unfolding account_request alert_request case_request platform_request engine_request intel_request
request (account c) = account_request c
request (alerts c) = alert_request c
request (cases c) = case_request c
request (platform c) = platform_request c
request (engine c) = engine_request c
request (intel c) = intel_request c

-- The two calls by which a user signs in.
abbrev pub is_sign_in : Call → Bool
is_sign_in (account (login _ _)) = true
is_sign_in (account (mfa_verify _ _)) = true
is_sign_in _ = false
