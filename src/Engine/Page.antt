-- ===== src/Engine/Page.antt =====
-- The page itself: its tabs, the tab that is open with its state, and the query of the header.
use socblitz.Common.{String, true, ◌==◌, List, [], ◌∷◌, if◌then◌else◌}
use socblitz.Common.Json.{str}
use socblitz.Api.{engine, engine_rules}
use socblitz.Ui.{Query}
use socblitz.Engine.Trials.{Trial, TrialKind, test_log, open_trial}
use socblitz.Engine.Trials as Trials
use socblitz.Engine.RuleGen.{RuleGen, open_rule_gen}
use socblitz.Engine.Yaral.{Yaral, open_yaral}
use socblitz.Engine.Parsers.{Parsers}
use socblitz.Engine.Parsers as Editor

-- `Tab`
pub data Tab : Type 0 where
  normalize parsers yaral test rulegen : Tab

-- `tabs`, in the order in which they stand
abbrev pub tabs : List Tab
tabs = normalize ∷ parsers ∷ yaral ∷ test ∷ rulegen ∷ []

-- `key`
abbrev pub tab_key : Tab → String
tab_key normalize = "normalize"
tab_key parsers = "parsers"
tab_key yaral = "yaral"
tab_key test = "test"
tab_key rulegen = "rulegen"

-- the one tab that is mounted, with its state
pub data Content : Type 0 where
  trial_content : TrialKind → Trial → Content
  parsers_content : Parsers → Content
  yaral_content : Yaral → Content
  rule_content : RuleGen → Content

-- `tab`
abbrev pub tab_of : Content → Tab
tab_of (trial_content test_log t) = test
tab_of (trial_content Trials.normalize t) = normalize
tab_of (parsers_content p) = parsers
tab_of (yaral_content y) = yaral
tab_of (rule_content g) = rulegen

-- what is mounted for a tab
unfoldable pub mount : Tab → Content
mount normalize = trial_content Trials.normalize (open_trial Trials.normalize)
mount parsers = parsers_content Editor.opened
mount yaral = yaral_content open_yaral
mount test = trial_content test_log (open_trial test_log)
mount rulegen = rule_content open_rule_gen

-- `setTab(key)`: the tab that is open already stays mounted
unfoldable pub pick_tab : Content → Tab → Content
unfolding mount
pick_tab c t = if tab_key (tab_of c) == tab_key t then c else mount t

unfoldable pub opened : Content
unfolding mount
opened = mount normalize

unfoldable pub rules_query : Query
rules_query = record { key = str "engine-rules" ∷ []; call = engine engine_rules; enabled = true }
