-- ===== src/Session/Timeouts.antt =====
-- Which calls give up waiting.
use socblitz.Common.{◌≡◌, refl, none, some, if◌then◌else◌}
use socblitz.Api.{
  AccountCall, AlertCall, CaseCall, PlatformCall, EngineCall, IntelCall, Call, account, alerts,
  cases, platform, engine, intel, login, mfa_verify, request, is_sign_in, account_request,
  alert_request, case_request, platform_request, engine_request, intel_request,
}

timeout_of_alert : (c : AlertCall) → (alert_request c).timeout ≡ none
unfolding alert_request
timeout_of_alert socblitz.Api.health = refl
timeout_of_alert _ = refl

timeout_of_case : (c : CaseCall) → (case_request c).timeout ≡ none
unfolding case_request
timeout_of_case (socblitz.Api.list_cases _) = refl
timeout_of_case _ = refl

timeout_of_platform : (c : PlatformCall) → (platform_request c).timeout ≡ none
unfolding platform_request
timeout_of_platform socblitz.Api.sync_agents = refl
timeout_of_platform _ = refl

timeout_of_engine : (c : EngineCall) → (engine_request c).timeout ≡ none
unfolding engine_request
timeout_of_engine socblitz.Api.engine_rules = refl
timeout_of_engine _ = refl

timeout_of_intel : (c : IntelCall) → (intel_request c).timeout ≡ none
unfolding intel_request
timeout_of_intel socblitz.Api.misp_events = refl
timeout_of_intel _ = refl

-- The two sign-in calls give up after 15 seconds, every other call of the client waits without limit.
pub timeout-request : (c : Call) → (request c).timeout ≡ (if is_sign_in c then some 15000 else none)
unfolding request
timeout-request (account (login _ _)) = refl
timeout-request (account _) = refl
timeout-request (alerts c) = timeout_of_alert c
timeout-request (cases c) = timeout_of_case c
timeout-request (platform c) = timeout_of_platform c
timeout-request (engine c) = timeout_of_engine c
timeout-request (intel c) = timeout_of_intel c
