-- ===== src/Engine/Parsers.antt =====
-- `ParsersTab`: the list of parsers, the one that is edited, its trial, its generation, and what an
-- administrator may save or delete. The list is what the query has answered so far, and the effect that
-- selects the first parser runs after each event, as after each render.
pub mod Roles
pub mod Deletion
use socblitz.Common.{
  ℕ, String, Bool, true, false, not, ◌&&◌, ◌||◌, ◌==◌, Option, none, some, List, [], ◌∷◌, ◌++◌,
  or_else, truthy, trim, found_is, find?, get_elem?, if◌then◌else◌,
}
use socblitz.Common.Json.{Json, str}
use socblitz.Api.{
  engine, engine_list_parsers, engine_test_parser, engine_generate_parser, engine_save_parser,
  engine_delete_parser,
}
use socblitz.Ui.{
  Effect, Query, send, invalidate, toast_success, toast_error, success, failure, say, Detail,
  detail_or,
}

-- a row of the list; an absent text is ""
pub record Parser : Type 0 where
  pub name : String
  pub yaml : String
  pub source : String

pub record Parsers : Type 0 where
  pub list : List Parser
  pub selected : Option String
  pub draft : String
  pub sample : String
  pub test : Option Json
  pub busy : Bool
  pub gen_busy : Bool
  pub show_guide : Bool
  -- `saveMut.isPending` and `deleteMut.isPending`
  pub saving : Bool
  pub deleting : Bool

abbrev pub new_key : String
new_key = "__new__"

abbrev new_parser_template : String
new_parser_template =
    "name: myapp\nlog_type: MYAPP\ncheck:\n  program: myapp\nfilter:\n  - grok:\n      source: message\n      patterns:\n        - 'user=%{USERNAME:user} from %{IP:src_ip} action=%{WORD:act}'\n  - set:\n      metadata.event_type: 'USER_LOGIN'\n      metadata.vendor_name: 'MyApp'\n      principal.ip: '%{src_ip}'\n      target.user.userid: '%{user}'\n      security_result.action: '%{act}'"

unfoldable pub opened : Parsers
opened = record {
  list = [];
  selected = none;
  draft = "";
  sample = "Oct 12 18:00:01 web-01 myapp[42]: user=alice from 203.0.113.5 action=login";
  test = none;
  busy = false;
  gen_busy = false;
  show_guide = false;
  saving = false;
  deleting = false;
}

unfoldable pub parsers_query : Query
parsers_query = record {
  key = str "engine-parsers" ∷ [];
  call = engine engine_list_parsers;
  enabled = true;
}

-- `isAdmin`
abbrev pub is_admin : Option String → Bool
is_admin role = found_is role "admin"

-- `!!selected`: the editor is shown
abbrev pub shown : Option String → Bool
shown none = false
shown (some name) = truthy name

-- `isNew`
abbrev pub is_new : Parsers → Bool
is_new p = found_is p.selected new_key

-- `list.find((p) => p.name === selected)`
abbrev pub named : List Parser → Option String → Option Parser
named ps selected = find? (λ q. found_is selected q.name) ps

-- `current`
unfoldable pub current : Parsers → Option Parser
current p = if is_new p then none else named p.list p.selected

-- `isBuiltin`
abbrev pub source_is : Option Parser → String → Bool
source_is none s = false
source_is (some q) s = q.source == s

-- the effect that selects the first parser
select_from : Parsers → List Parser → Parsers
select_from p [] = p
select_from p (q ∷ _) = record p { selected = some q.name; draft = q.yaml }

unfoldable pub select_first : Parsers → Parsers
unfolding select_from
select_first p = if shown p.selected then p else select_from p p.list

-- what the handlers read of an answer; an absent error is ""
pub record Tested : Type 0 where
  pub error : String
  pub body : Json

pub data Event : Type 0 where
  list_loaded : List Parser → Event
  toggle_guide : Event
  -- a row of the list, by its place
  pick : ℕ → Event
  start_new : Event
  edit_draft : String → Event
  edit_sample : String → Event
  run_test : Event
  generate : Event
  save : Event
  delete : (confirmed : Bool) → Event
  -- answers of the server
  test_reply : Tested → Event
  test_failed : Detail → Event
  -- `yaml`, absent as "", `tested`, and the source as it is printed
  generate_reply : (yaml : String) (tested : Option Json) (source : String) → Event
  generate_failed : Detail → Event
  save_reply : (error : String) (name : Option String) → Event
  save_failed : Detail → Event
  delete_reply : (error : String) → Event
  delete_failed : Detail → Event

picked : Parsers → Option Parser → Parsers
picked p none = p
picked p (some q) = record p { selected = some q.name; draft = q.yaml; test = none }

-- `generate` up to its `await`
handle_generate : Parsers → Parsers × List Effect
handle_generate p =
    if truthy (trim p.sample)
    then (record p { gen_busy = true }, send (engine (engine_generate_parser p.sample none)) ∷ [])
    else (p, failure "Enter a sample log line to generate from" ∷ [])

-- the button Delete, which only a custom parser has
unfoldable pub delete_current : Parsers → Option Parser → Parsers × List Effect
delete_current p none = (p, [])
delete_current p (some q) =
    if q.source == "custom"
    then (record p { deleting = true }, send (engine (engine_delete_parser q.name)) ∷ [])
    else (p, [])

abbrev test_toast : Tested → List Effect
test_toast t = if truthy t.error then toast_error (say t.error ∷ []) ∷ [] else []

-- `if (name) setSelected(name)`
select_saved : Parsers → Option String → Parsers
select_saved p name = if shown name then record p { selected = name } else p

abbrev saved_toast : Option String → Effect
saved_toast name =
    toast_success (say "Parser \"" ∷ say (or_else name "undefined") ∷ say "\" saved" ∷ [])

saved : Parsers → String → Option String → Parsers × List Effect
unfolding select_saved
saved p error name =
    if truthy error then (record p { saving = false }, toast_error (say error ∷ []) ∷ []) else (
      select_saved (record p { saving = false }) name,
      saved_toast name
          ∷ invalidate (str "engine-parsers" ∷ [])
          ∷ invalidate (str "engine-rules" ∷ [])
          ∷ [],
    )

deleted : Parsers → String → Parsers × List Effect
deleted p error =
    if truthy error then (record p { deleting = false }, toast_error (say error ∷ []) ∷ []) else (
      record p { deleting = false; selected = none },
      success "Parser deleted" ∷ invalidate (str "engine-parsers" ∷ []) ∷ [],
    )

-- One event, for a user of the role. A control that is not shown or is disabled does nothing.
unfoldable pub act : Option String → Parsers → Event → Parsers × List Effect
unfolding picked handle_generate delete_current saved deleted current
act role p (list_loaded ps) = (record p { list = ps }, [])
act role p toggle_guide = (record p { show_guide = not p.show_guide }, [])
act role p (pick i) = (picked p (get_elem? p.list i), [])
act role p start_new =
    if is_admin role
    then (record p { selected = some new_key; draft = new_parser_template; test = none }, [])
    else (p, [])
act role p (edit_draft s) =
    if shown p.selected && is_admin role then (record p { draft = s }, []) else (p, [])
act role p (edit_sample s) = if shown p.selected then (record p { sample = s }, []) else (p, [])
act role p run_test =
    if shown p.selected && not p.busy
    then (
      record p { busy = true },
      send (engine (engine_test_parser p.sample (some p.draft) none)) ∷ [],
    )
    else (p, [])
act role p generate = if shown p.selected && not p.gen_busy then handle_generate p else (p, [])
act role p save =
    if shown p.selected && is_admin role && not p.saving
    then (record p { saving = true }, send (engine (engine_save_parser p.draft)) ∷ [])
    else (p, [])
act role p (delete confirmed) =
    if shown p.selected && is_admin role && not p.deleting && confirmed
    then delete_current p (current p)
    else (p, [])
act role p (test_reply t) =
    if p.busy then (record p { test = some t.body; busy = false }, test_toast t) else (p, [])
act role p (test_failed d) =
    if p.busy
    then (record p { busy = false }, toast_error (detail_or d "Engine unavailable") ∷ [])
    else (p, [])
act role p (generate_reply yaml tested source) =
    if p.gen_busy
    then (
      record p { selected = some new_key; draft = yaml; test = tested; gen_busy = false },
      toast_success (say "Parser generated (" ∷ say source ∷ say ") — review, test, then Save" ∷ [])
          ∷ [],
    )
    else (p, [])
act role p (generate_failed d) =
    if p.gen_busy
    then (record p { gen_busy = false }, toast_error (detail_or d "Generation failed") ∷ [])
    else (p, [])
act role p (save_reply error name) = if p.saving then saved p error name else (p, [])
act role p (save_failed d) =
    if p.saving
    then (record p { saving = false }, toast_error (detail_or d "Save failed") ∷ [])
    else (p, [])
act role p (delete_reply error) = if p.deleting then deleted p error else (p, [])
act role p (delete_failed d) =
    if p.deleting
    then (record p { deleting = false }, toast_error (detail_or d "Delete failed") ∷ [])
    else (p, [])

-- an event and the render after it
unfoldable pub step : Option String → Parsers → Event → Parsers
step role p e = select_first (act role p e).0

-- all that is asked for while the events happen one after another
unfoldable pub effects : Option String → Parsers → List Event → List Effect
effects role p [] = []
effects role p (e ∷ es) = (act role p e).1 ++ effects role (step role p e) es

unfoldable pub run : Option String → Parsers → List Event → Parsers
run role p [] = p
run role p (e ∷ es) = run role (step role p e) es
