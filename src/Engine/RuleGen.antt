-- ===== src/Engine/RuleGen.antt =====
-- `RuleGenTab`: the form of a rule, the rule that it stands for, and its trial on a sample line.
-- `Number` and `JSON.stringify` of the language are parameters.
use socblitz.Common.{
  String, Bool, true, false, Option, none, some, List, [], ◌∷◌, or_else, or_null, truthy,
  if◌then◌else◌,
}
use socblitz.Common.Json.{Json, Fields, num, str, arr, strs, obj, end, field}
use socblitz.Api.{engine, engine_test_log, engine_test_rule}
use socblitz.Ui.{
  Effect, send, toast_success, toast_error, toast_hint, clipboard, success, failure, say, Detail,
  detail_or,
}
use socblitz.Engine.Clean.{clean, comma}

pub record RuleForm : Type 0 where
  pub id : String
  pub level : String
  pub description : String
  pub program : String
  pub match : String
  pub groups : String
  pub mitre_techniques : String
  pub mitre_tactics : String

pub record RuleGen : Type 0 where
  pub form : RuleForm
  pub sample : String
  pub result : Option Json
  pub busy : Bool

pub data RuleField : Type 0 where
  id level description program match groups mitre_techniques mitre_tactics : RuleField

unfoldable pub open_rule_gen : RuleGen
open_rule_gen = record {
  form = record {
    id = "100001";
    level = "7";
    description = "Custom detection";
    program = "sshd";
    match = "Failed password";
    groups = "authentication_failed,custom";
    mitre_techniques = "T1110";
    mitre_tactics = "Credential Access";
  };
  sample =
      "Oct 12 18:00:01 web-01 sshd[999]: Failed password for root from 203.0.113.5 port 22 ssh2";
  result = none;
  busy = false;
}

-- `set(k, v)`
unfoldable pub set : RuleField → String → RuleForm → RuleForm
set id s f = record f { id = s }
set level s f = record f { level = s }
set description s f = record f { description = s }
set program s f = record f { program = s }
set match s f = record f { match = s }
set groups s f = record f { groups = s }
set mitre_techniques s f = record f { mitre_techniques = s }
set mitre_tactics s f = record f { mitre_tactics = s }

-- a field that is `undefined` where the text is empty, and so left out of the request
abbrev present : String → Option String → Fields → Fields
present key none rest = rest
present key (some s) rest = field key (str s) rest

-- what the handlers read of an answer; an absent error is ""
pub record Verdict : Type 0 where
  pub error : String
  pub matched : Bool
  pub body : Json

pub data RuleEvent : Type 0 where
  edit : RuleField → String → RuleEvent
  type_sample : String → RuleEvent
  prefill : RuleEvent
  test : RuleEvent
  copy : RuleEvent
  -- `r.data.event?.program` of the answer; an absent one is ""
  prefill_reply : String → RuleEvent
  prefill_failed : RuleEvent
  test_reply : Verdict → RuleEvent
  test_failed : Detail → RuleEvent

verdict_toast : Verdict → Effect
verdict_toast v =
    if truthy v.error
    then toast_error (say v.error ∷ [])
    else if v.matched
    then success "Rule matched the sample"
    else toast_hint (say "Rule did not match" ∷ [])

prefilled : RuleGen → String → RuleGen
unfolding set
prefilled g p = if truthy p then record g { form = set program p g.form } else g

abbrev question : String → String
question p = or_else (or_null p) "?"

-- `number` is `Number`, with `none` for NaN; `json_text` is `JSON.stringify(rule, null, 2)`
module _ (number : String → Option Json) (json_text : Json → String) where
  -- `rule`
  unfoldable pub rule : RuleForm → Json
  rule f = obj (
      field "id" (str f.id) (
        field "level" (or_else (number f.level) (num 0)) (
          field "description" (str f.description) (
            present "program" (or_null f.program) (
              present "match" (or_null f.match) (
                field "groups" (arr (strs (clean comma f.groups))) (
                  field "mitre_techniques" (arr (strs (clean comma f.mitre_techniques)))
                    (field "mitre_tactics" (arr (strs (clean comma f.mitre_tactics))) end))))))))

  unfoldable pub act : RuleGen → RuleEvent → RuleGen × List Effect
  unfolding verdict_toast prefilled set rule
  act g (edit k s) = (record g { form = set k s g.form }, [])
  act g (type_sample s) = (record g { sample = s }, [])
  act g prefill = (g, send (engine (engine_test_log g.sample none)) ∷ [])
  act g test = if g.busy then (g, []) else (
    record g { busy = true },
    send (engine (engine_test_rule (rule g.form) g.sample none)) ∷ [],
  )
  act g copy = (g, clipboard (json_text (rule g.form) ∷ []) ∷ success "Rule JSON copied" ∷ [])
  act g (prefill_reply p) = (
    prefilled g p,
    toast_success (say "Prefilled program \"" ∷ say (question p) ∷ say "\" from sample" ∷ []) ∷ [],
  )
  act g prefill_failed = (g, failure "Could not decode sample" ∷ [])
  act g (test_reply v) =
      if g.busy
      then (record g { result = some v.body; busy = false }, verdict_toast v ∷ [])
      else (g, [])
  act g (test_failed d) =
      if g.busy
      then (record g { busy = false }, toast_error (detail_or d "Engine unavailable") ∷ [])
      else (g, [])
