-- ===== src/ThreatIntel.antt =====
-- The threat intelligence page, frontend/src/pages/ThreatIntel.tsx: the lookup of an indicator, the
-- verdict and the rows of its answer, and how a value is printed. An awaited lookup is two events.
pub mod View
pub mod Laws
use socblitz.Common.{
  ℕ, String, Bool, true, false, not, ◌&&◌, ◌||◌, Option, none, some, List, [], ◌∷◌, ◌++◌, map,
  filter, or_else, or_text, or_null, truthy, trim, is_some, eqb, if◌then◌else◌,
}
use socblitz.Common.Json.{
  Json, Items, Fields, null, bool, num, str, arr, obj, nil, cons, end, field, get,
}
use socblitz.Api.{intel, lookup_ioc, misp_events}
use socblitz.Ui.{Effect, Part, Query, send, failure, say, number, value}

pub data IocType : Type 0 where
  ip domain hash url email : IocType

abbrev pub ioc_text : IocType → String
ioc_text ip = "ip"
ioc_text domain = "domain"
ioc_text hash = "hash"
ioc_text url = "url"
ioc_text email = "email"

-- `IOC_META[type].placeholder`
abbrev pub placeholder : IocType → String
placeholder ip = "185.220.101.42"
placeholder domain = "malicious-c2.example.com"
placeholder hash = "MD5 / SHA1 / SHA256"
placeholder url = "https://evil.example/payload"
placeholder email = "phish@attacker.com"

-- What an answer holds; a source that gives no object is an empty one.
pub record Lookup : Type 0 where
  -- `verdict?.status` and the truth of `verdict?.malicious`
  pub status : Option String
  pub malicious : Bool
  pub confidence : Option ℕ
  pub reasons : List String
  pub sources : Option (List (String × Fields))
  pub skipped : List String

-- `verdictLabel`
unfoldable pub verdict_label : Lookup → String
verdict_label r =
    or_else r.status
      (if not (is_some r.sources) then "unknown" else if r.malicious then "malicious" else "clean")

-- the truth of a value in a condition
unfoldable pub truth : Json → Bool
truth null = false
truth (bool b) = b
truth (num n) = not (eqb n 0)
truth (str s) = truthy s
truth (arr js) = true
truth (obj fs) = true

abbrev pub entries : Fields → List (String × Json)
entries end = []
entries (field k v rest) = (k, v) ∷ entries rest

-- `if (rows.length === 0) rows.push(['—', '—'])`
abbrev pub or_dash : List (String × Json) → List (String × Json)
or_dash [] = ("—", str "—") ∷ []
or_dash (r ∷ rs) = r ∷ rs

abbrev pub source_rows : Option Json → Fields → List (String × Json)
source_rows none data_ = or_dash (entries data_)
source_rows (some error) data_ =
    if truth error then ("error", error) ∷ [] else or_dash (entries data_)

-- `rows` of a source
unfoldable pub rows : Fields → List (String × Json)
unfolding truth
rows data_ = source_rows (get "error" data_) data_

-- the names of an event's tags; an absent name is ""
abbrev pub tags : List String → List String
tags names = filter truthy names

-- `typeof x !== 'object'`
abbrev pub is_plain : Json → Bool
is_plain null = false
is_plain (arr js) = false
is_plain (obj fs) = false
is_plain _ = true

abbrev pub all_plain : Items → Bool
all_plain nil = true
all_plain (cons j js) = is_plain j && all_plain js

abbrev pub item_count : Items → ℕ
item_count nil = 0
item_count (cons j js) = ℕ.suc (item_count js)

-- `v.join(', ')`
abbrev pub joined : Items → List Part
joined nil = []
joined (cons j nil) = value j ∷ []
joined (cons j (cons k js)) = value j ∷ say ", " ∷ joined (cons k js)

abbrev counted : ℕ → List Part
counted n = number n ∷ say (if eqb n 1 then " item" else " items") ∷ []

-- `formatValue`; a value that is put in as it is is printed by `String` or `JSON.stringify`
unfoldable pub format_value : Json → List Part
format_value null = say "—" ∷ []
format_value (str s) = say (or_text s "—") ∷ []
format_value (bool b) = say (if b then "yes" else "no") ∷ []
format_value (arr nil) = say "—" ∷ []
format_value (arr (cons j js)) =
    if all_plain (cons j js) then joined (cons j js) else counted (item_count (cons j js))
format_value (num n) = number n ∷ []
format_value (obj fs) = value (obj fs) ∷ []

pub record ThreatIntel : Type 0 where
  pub ioc_type : IocType
  pub query : String
  pub result : Option Lookup
  pub loading : Bool

unfoldable pub opened : ThreatIntel
opened = record { ioc_type = ip; query = ""; result = none; loading = false }

unfoldable pub recent_query : Query
recent_query = record {
  key = str "threat-intel-recent" ∷ [];
  call = intel misp_events;
  enabled = true;
}

pub data Event : Type 0 where
  pick_type : IocType → Event
  type_query : String → Event
  submit : Event
  lookup_reply : Lookup → Event
  lookup_failed : Event

-- `handleLookup` up to its `await`; the form is not submitted while its button is disabled
handle_lookup : ThreatIntel → ThreatIntel × List Effect
handle_lookup p = if p.loading || not (truthy (trim p.query)) then (p, []) else (
  record p { loading = true; result = none },
  send (intel (lookup_ioc (trim p.query) (ioc_text p.ioc_type))) ∷ [],
)

unfoldable pub act : ThreatIntel → Event → ThreatIntel × List Effect
unfolding handle_lookup
act p (pick_type t) = (record p { ioc_type = t; result = none }, [])
act p (type_query s) = (record p { query = s }, [])
act p submit = handle_lookup p
act p (lookup_reply r) =
    if p.loading then (record p { result = some r; loading = false }, []) else (p, [])
act p lookup_failed =
    if p.loading
    then (
      record p { loading = false },
      failure "Lookup failed — check connector configuration" ∷ [],
    )
    else (p, [])

unfoldable pub run : ThreatIntel → List Event → ThreatIntel
run p [] = p
run p (e ∷ es) = run (act p e).0 es
