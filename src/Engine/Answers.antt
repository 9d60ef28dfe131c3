-- ===== src/Engine/Answers.antt =====
-- What an answer of the engine leaves: the button that was disabled for it can be pressed again.
use socblitz.Common.{Bool, true, false}
use socblitz.Common.Json.{Json}
use socblitz.Engine.Trials.{TrialEvent, trial_reply, trial_failed}
use socblitz.Engine.RuleGen
use socblitz.Engine.RuleGen.{RuleGen, RuleEvent, rule}
use socblitz.Engine.Yaral
use socblitz.Engine.Yaral.{
  Yaral, YaralEvent, run_reply, run_failed, generate_reply, generate_failed,
}
use socblitz.Engine.Parsers
use socblitz.Engine.Parsers.{Parsers}

-- the answers to a run of each tab, good or bad
abbrev is_trial_answer : TrialEvent → Bool
is_trial_answer (trial_reply j) = true
is_trial_answer (trial_failed d) = true
is_trial_answer _ = false

abbrev is_rule_answer : RuleEvent → Bool
is_rule_answer (RuleGen.test_reply v) = true
is_rule_answer (RuleGen.test_failed d) = true
is_rule_answer _ = false

abbrev is_yaral_answer : YaralEvent → Bool
is_yaral_answer (run_reply d) = true
is_yaral_answer (run_failed d) = true
is_yaral_answer _ = false

abbrev is_rule_text_answer : YaralEvent → Bool
is_rule_text_answer (generate_reply rule source event_type) = true
is_rule_text_answer (generate_failed d) = true
is_rule_text_answer _ = false

-- the answers to the four calls of the tab of the parsers
abbrev is_test_answer : Parsers.Event → Bool
is_test_answer (Parsers.test_reply t) = true
is_test_answer (Parsers.test_failed d) = true
is_test_answer _ = false

abbrev is_parser_answer : Parsers.Event → Bool
is_parser_answer (Parsers.generate_reply yaml tested source) = true
is_parser_answer (Parsers.generate_failed d) = true
is_parser_answer _ = false

abbrev is_save_answer : Parsers.Event → Bool
is_save_answer (Parsers.save_reply error name) = true
is_save_answer (Parsers.save_failed d) = true
is_save_answer _ = false

abbrev is_delete_answer : Parsers.Event → Bool
is_delete_answer (Parsers.delete_reply error) = true
is_delete_answer (Parsers.delete_failed d) = true
is_delete_answer _ = false
