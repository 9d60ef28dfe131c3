-- ===== src/Engine/Trials.antt =====
-- The tabs that try one log line on the engine: `TestTab` and `NormalizeTab`, with the colours and the
-- sample lines. An awaited call is two events, and its button is disabled until the answer.
use socblitz.Common.{
  ℕ, String, Bool, true, false, Option, none, some, List, [], ◌∷◌, leb, get_elem?, if◌then◌else◌,
}
use socblitz.Common.Json.{Json}
use socblitz.Api.{engine, engine_test_log, engine_normalize}
use socblitz.Ui.{Effect, send, toast_error, Detail, detail_or}

-- `LEVEL_COLOR`
unfoldable pub level_color : ℕ → String
level_color level =
    if leb 12 level
    then "#f43f5e"
    else if leb 8 level
    then "#f97316"
    else if leb 4 level
    then "#f59e0b"
    else "#67e8f9"

pub record Trial : Type 0 where
  pub message : String
  pub result : Option Json
  pub busy : Bool

pub data TrialEvent : Type 0 where
  type_message : String → TrialEvent
  -- the button of a sample line, by its place
  pick_sample : ℕ → TrialEvent
  run_trial : TrialEvent
  trial_reply : Json → TrialEvent
  trial_failed : Detail → TrialEvent

-- which of the two tabs it is
pub data TrialKind : Type 0 where
  test_log normalize : TrialKind

unfoldable pub open_trial : TrialKind → Trial
open_trial test_log = record {
  message =
      "Oct 12 18:00:01 web-01 sshd[999]: Failed password for invalid user admin from 203.0.113.5 port 22 ssh2";
  result = none;
  busy = false;
}
open_trial normalize = record {
  message =
      "Oct 12 18:00:01 web-01 sshd[999]: Failed password for invalid user admin from 203.0.113.5 port 22 ssh2";
  result = none;
  busy = false;
}

-- `samples`: only the normalize tab has them
abbrev pub samples : TrialKind → List String
samples test_log = []
samples normalize =
    "Oct 12 18:00:01 web-01 sshd[999]: Failed password for invalid user admin from 203.0.113.5 port 22 ssh2"
    ∷ "Oct 12 18:06:00 web-01 sshd[800]: Accepted password for root from 10.0.0.5 port 22 ssh2"
    ∷ "Oct 12 18:10:00 web-01 sudo:   alice : TTY=pts/0 ; PWD=/home/alice ; USER=root ; COMMAND=/usr/bin/apt install nmap"
    ∷ "Oct 12 18:12:00 fw kernel: [UFW BLOCK] IN=eth0 OUT= SRC=198.51.100.7 DST=10.0.0.1 PROTO=TCP SPT=51000 DPT=22"
    ∷ []

message_or : Trial → Option String → Trial
message_or t none = t
message_or t (some s) = record t { message = s }

abbrev pub trial_call : TrialKind → String → Effect
trial_call test_log message = send (engine (engine_test_log message none))
trial_call normalize message = send (engine (engine_normalize message none))

unfoldable pub try_line : TrialKind → Trial → TrialEvent → Trial × List Effect
unfolding message_or
try_line k t (type_message s) = (record t { message = s }, [])
try_line k t (pick_sample i) = (message_or t (get_elem? (samples k) i), [])
try_line k t run_trial =
    if t.busy then (t, []) else (record t { busy = true }, trial_call k t.message ∷ [])
try_line k t (trial_reply j) =
    if t.busy then (record t { result = some j; busy = false }, []) else (t, [])
try_line k t (trial_failed d) =
    if t.busy
    then (record t { busy = false }, toast_error (detail_or d "Engine unavailable") ∷ [])
    else (t, [])
