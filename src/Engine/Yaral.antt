-- ===== src/Engine/Yaral.antt =====
-- `YaraLTab`: a rule text and sample lines, the generation of a rule from the first line and the run of
-- the rule on all of them.
use socblitz.Common.{
  ℕ, String, Bool, true, false, Option, none, some, List, [], ◌∷◌, truthy, get_elem?, if◌then◌else◌,
}
use socblitz.Common.Json.{Json, str}
use socblitz.Api.{engine, engine_generate_yaral, engine_test_yaral, engine_yaral_rules}
use socblitz.Ui.{
  Effect, Query, send, toast_success, toast_error, toast_hint, failure, say, number, Detail,
  detail_or,
}
use socblitz.Engine.Clean.{clean, join, line_end}

pub record Yaral : Type 0 where
  pub rule : String
  pub lines : String
  pub result : Option Json
  pub busy : Bool
  pub gen_busy : Bool

-- `DEFAULT_YARAL`
abbrev default_yaral : String
default_yaral =
    "rule ssh_brute_force {\n  meta:\n    author = \"socblitz\"\n    description = \"SSH brute force: 5+ failed logins from one source in 5m\"\n    severity = \"HIGH\"\n    tactic = \"credential_access\"\n    technique = \"T1110\"\n  events:\n    $e.metadata.event_type = \"USER_LOGIN\"\n    $e.security_result.action = \"BLOCK\"\n    $e.principal.ip = $srcip\n  match:\n    $srcip over 5m\n  condition:\n    #e >= 5\n}"

-- the five texts that `DEFAULT_YARAL_LINES` joins
abbrev default_messages : List String
default_messages =
    "Oct 12 18:00:00 web-01 sshd[700]: Failed password for root from 45.155.205.99 port 22 ssh2"
    ∷ "Oct 12 18:00:01 web-01 sshd[701]: Failed password for root from 45.155.205.99 port 22 ssh2"
    ∷ "Oct 12 18:00:02 web-01 sshd[702]: Failed password for root from 45.155.205.99 port 22 ssh2"
    ∷ "Oct 12 18:00:03 web-01 sshd[703]: Failed password for root from 45.155.205.99 port 22 ssh2"
    ∷ "Oct 12 18:00:04 web-01 sshd[704]: Failed password for root from 45.155.205.99 port 22 ssh2"
    ∷ []

unfoldable pub open_yaral : Yaral
open_yaral = record {
  rule = default_yaral;
  lines = join "\n" default_messages;
  result = none;
  busy = false;
  gen_busy = false;
}

unfoldable pub rules_query : Query
rules_query = record {
  key = str "engine-yaral-rules" ∷ [];
  call = engine engine_yaral_rules;
  enabled = true;
}

-- What `run` reads of an answer: an absent error is ""; `alerts` is how many there are, `none` when
-- the answer has no such list.
pub record Detected : Type 0 where
  pub error : String
  pub matched : Bool
  pub alerts : Option ℕ
  pub body : Json

pub data YaralEvent : Type 0 where
  type_rule : String → YaralEvent
  type_lines : String → YaralEvent
  generate_rule : YaralEvent
  run : YaralEvent
  -- the rule, an absent one as ""; the source and the event type as they are printed
  generate_reply : (rule source event_type : String) → YaralEvent
  generate_failed : Detail → YaralEvent
  run_reply : Detected → YaralEvent
  run_failed : Detail → YaralEvent

-- `first`
abbrev pub first : Yaral → Option String
first y = get_elem? (clean line_end y.lines) 0

handle_generate : Yaral → Option String → Yaral × List Effect
handle_generate y none = (y, failure "Add a sample log line to generate from" ∷ [])
handle_generate y (some l) =
    (record y { gen_busy = true }, send (engine (engine_generate_yaral l none)) ∷ [])

-- A match whose alerts are missing throws, and the `catch` says that the engine is not available.
fired : Option ℕ → Effect
fired none = failure "Engine unavailable"
fired (some n) = toast_success (number n ∷ say " detection(s) fired" ∷ [])

detected_toast : Detected → Effect
unfolding fired
detected_toast d =
    if truthy d.error
    then toast_error (say d.error ∷ [])
    else if d.matched
    then fired d.alerts
    else toast_hint (say "No detection fired" ∷ [])

unfoldable pub act : Yaral → YaralEvent → Yaral × List Effect
unfolding handle_generate detected_toast
act y (type_rule s) = (record y { rule = s }, [])
act y (type_lines s) = (record y { lines = s }, [])
act y generate_rule = if y.gen_busy then (y, []) else handle_generate y (first y)
act y run = if y.busy then (y, []) else (
  record y { busy = true },
  send (engine (engine_test_yaral y.rule (clean line_end y.lines) none)) ∷ [],
)
act y (generate_reply rule source event_type) =
    if y.gen_busy
    then (
      record y { rule = rule; gen_busy = false },
      toast_success (say "Rule generated (" ∷ say source ∷ say ") for " ∷ say event_type ∷ []) ∷ [],
    )
    else (y, [])
act y (generate_failed d) =
    if y.gen_busy
    then (record y { gen_busy = false }, toast_error (detail_or d "Generation failed") ∷ [])
    else (y, [])
act y (run_reply d) =
    if y.busy
    then (record y { result = some d.body; busy = false }, detected_toast d ∷ [])
    else (y, [])
act y (run_failed d) =
    if y.busy
    then (record y { busy = false }, toast_error (detail_or d "Engine unavailable") ∷ [])
    else (y, [])
