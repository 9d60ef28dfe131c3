-- ===== src/Connectors.antt =====
-- The connectors, frontend/src/pages/Connectors.tsx, and the names under which they are shown,
-- frontend/src/lib/connectors.ts.
pub mod Laws
use socblitz.Common.{
  ℕ, String, Bool, true, false, not, ◌&&◌, ◌==◌, ◌+◌, ◌*◌, ◌/◌, Option, none, some, List, [], ◌∷◌,
  ◌++◌, filter, length, map, get_elem?, found_is, or_else, eqb, ltb, find?, if◌then◌else◌,
}
use socblitz.Common.Json.{Json, Fields, str, obj, end, field}
use socblitz.Api.{platform, list_connectors, verify_connector, update_connector}
use socblitz.Ui.{Effect, Query, send, invalidate, success, toast_error, say, value}

pub record ConnectorMeta : Type 0 where
  pub label : String
  pub desc : String
  pub docs : String
  pub category : String

abbrev meta : (label desc docs category : String) → ConnectorMeta
meta label desc docs category = record {
  label = label;
  desc = desc;
  docs = docs;
  category = category;
}

-- `CONNECTOR_META`
abbrev pub connector_metas : List (String × ConnectorMeta)
connector_metas =
    (
      "wazuh_manager",
      meta "SocBlitz Engine" "Detection engine — agent management, rules, FIM"
          "https://documentation.wazuh.com" "SIEM",
    )
    ∷ (
      "wazuh_indexer",
      meta "SocBlitz Store" "ClickHouse — alert and vulnerability data"
          "https://clickhouse.com/docs" "SIEM",
    )
    ∷ (
      "velociraptor",
      meta "SocBlitz Forensics" "Endpoint forensics and artifact collection"
          "https://docs.velociraptor.app" "DFIR",
    )
    ∷ (
      "misp",
      meta "SocBlitz Threat Intel" "Threat intelligence — IOCs and events"
          "https://www.misp-project.org" "Intel",
    )
    ∷ (
      "shuffle",
      meta "Shuffle SOAR" "Security orchestration and automation" "https://shuffler.io/docs" "SOAR",
    )
    ∷ (
      "thehive",
      meta "TheHive" "Case management and investigation" "https://docs.strangebee.com" "IR",
    )
    ∷ (
      "virustotal",
      meta "VirusTotal" "Multi-engine IOC reputation service" "https://developers.virustotal.com"
          "Intel",
    )
    ∷ (
      "crowdstrike",
      meta "CrowdStrike" "EDR — endpoint detection and isolation" "https://falcon.crowdstrike.com"
          "EDR",
    )
    ∷ (
      "sentinelone",
      meta "SentinelOne" "EDR — autonomous endpoint protection" "https://docs.sentinelone.com"
          "EDR",
    )
    ∷ (
      "dfir_iris",
      meta "DFIR IRIS" "Incident response and digital forensics" "https://docs.dfir-iris.org" "IR",
    )
    ∷ []

abbrev pub found_meta : Option (String × ConnectorMeta) → ConnectorMeta → ConnectorMeta
found_meta none default = default
found_meta (some (key, m)) default = m

-- `connectorMeta`; `title` stands for the two replacements by regular expressions
unfoldable pub connector_meta : (title : String → String) → String → ConnectorMeta
connector_meta title type =
    found_meta (find? (λ e. e.0 == type) connector_metas)
      (meta (title type) "Security integration" "#" "Other")

-- the link to the documentation of a connector, where there is one
unfoldable pub docs_link : ConnectorMeta → Option String
docs_link m = if m.docs == "" then none else if m.docs == "#" then none else some m.docs

-- what the page reads of a connector; an absent text is ""
pub record Connector : Type 0 where
  pub id : String
  pub verified : Bool
  pub url : String
  pub username : String

-- `online`, `total` and `pct`
unfoldable pub online : List Connector → ℕ
online cs = length (filter (λ c. c.verified) cs)

-- `Math.round((part / total) * 100)`, and 0 where there is nothing to count
unfoldable pub percent : (part total : ℕ) → ℕ
percent part total = if eqb total 0 then 0 else (200 * part + total) / (2 * total)

unfoldable pub pct : List Connector → ℕ
unfolding online percent
pct cs = percent (online cs) (length cs)

-- the colour of the percentage
unfoldable pub pct_color : ℕ → String
pct_color n = if eqb n 100 then "#4ade80" else if ltb 60 n then "#fbbf24" else "#f87171"

-- `editForm`; a password is there once it was typed
pub record EditForm : Type 0 where
  pub url : String
  pub username : String
  pub password : Option String

-- The state, with what the query has answered so far; `verifying` is `isPending` of the last check.
pub record Connectors : Type 0 where
  pub connectors : List Connector
  pub editing : Option String
  pub edit_form : EditForm
  pub verifying : Bool

-- the form of a page on which nothing was edited; it is not shown
unfoldable pub opened : Connectors
opened = record {
  connectors = [];
  editing = none;
  edit_form = record { url = ""; username = ""; password = none };
  verifying = false;
}

unfoldable pub connectors_query : Query
connectors_query = record {
  key = str "connectors" ∷ [];
  call = platform list_connectors;
  enabled = true;
}

pub data EditField : Type 0 where
  url username password : EditField

unfoldable pub set_field : EditField → String → EditForm → EditForm
set_field url s f = record f { url = s }
set_field username s f = record f { username = s }
set_field password s f = record f { password = some s }

abbrev password_field : Option String → Fields
password_field none = end
password_field (some s) = field "password" (str s) end

unfoldable pub form_json : EditForm → Json
form_json f =
    obj (field "url" (str f.url) (field "username" (str f.username) (password_field f.password)))

pub data Event : Type 0 where
  connectors_loaded : List Connector → Event
  verify_all : Event
  -- cards by their places
  test : ℕ → Event
  configure : ℕ → Event
  edit : EditField → String → Event
  save : Event
  cancel : Event
  -- the answer to a check, which may be the one that was started last, with its detail
  verified : (latest connected : Bool) (detail : Json) → Event
  verify_failed : (latest : Bool) → Event
  updated : Event
  update_failed : Event

abbrev verify_each : List Connector → List Effect
verify_each cs = map (λ c. send (platform (verify_connector c.id))) cs

tested : Connectors → Option Connector → Connectors × List Effect
tested p none = (p, [])
tested p (some c) =
    if p.verifying
    then (p, [])
    else (record p { verifying = true }, send (platform (verify_connector c.id)) ∷ [])

-- the button Configure, which is Cancel on the card that is edited
configured : Connectors → Option Connector → Connectors
configured p none = p
configured p (some c) = record p {
  editing = if found_is p.editing c.id then none else some c.id;
  edit_form = record { url = c.url; username = c.username; password = none };
}

-- the connector whose card shows the form
unfoldable pub shown_form : Connectors → Option Connector
shown_form p = find? (λ c. found_is p.editing c.id) p.connectors

saved : EditForm → Option Connector → List Effect
unfolding form_json
saved f none = []
saved f (some c) = send (platform (update_connector c.id (form_json f))) ∷ []

edited : Connectors → Option Connector → EditField → String → Connectors
unfolding set_field
edited p none k s = p
edited p (some c) k s = record p { edit_form = set_field k s p.edit_form }

any_connector : List Connector → Bool
any_connector [] = false
any_connector (c ∷ cs) = true

unfoldable pub act : Connectors → Event → Connectors × List Effect
unfolding shown_form tested configured saved edited any_connector
act p (connectors_loaded cs) = (record p { connectors = cs }, [])
act p verify_all =
    if any_connector p.connectors
    then (record p { verifying = true }, verify_each p.connectors)
    else (p, [])
act p (test i) = tested p (get_elem? p.connectors i)
act p (configure i) = (configured p (get_elem? p.connectors i), [])
act p (edit k s) = (edited p (shown_form p) k s, [])
act p save = (p, saved p.edit_form (shown_form p))
act p cancel = (record p { editing = none }, [])
act p (verified latest connected detail) = (
  record p { verifying = p.verifying && not latest },
  invalidate (str "connectors" ∷ [])
      ∷ (if connected
          then success "Connection verified"
          else toast_error (say "Failed: " ∷ value detail ∷ []))
      ∷ [],
)
act p (verify_failed latest) = (record p { verifying = p.verifying && not latest }, [])
act p updated = (
  record p { editing = none },
  invalidate (str "connectors" ∷ []) ∷ success "Connector updated" ∷ [],
)
act p update_failed = (p, [])
