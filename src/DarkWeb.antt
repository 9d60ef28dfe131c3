-- ===== src/DarkWeb.antt =====
-- The dark web page, frontend/src/pages/DarkWeb.tsx: the search, the monitored assets and the status
-- of a finding. An awaited search is two events; the other calls leave no trace in the state.
pub mod View
pub mod Trace
use socblitz.Common.{
  String, Bool, true, false, not, ◌||◌, Option, none, some, List, [], ◌∷◌, truthy, trim, is_some,
  if◌then◌else◌,
}
use socblitz.Common.Json.{Json, str, obj, end, field}
use socblitz.Api.{
  intel, darkweb_search, darkweb_create_asset, darkweb_scan_asset, darkweb_delete_asset,
  darkweb_update_finding,
}
use socblitz.Ui.{Effect, send, invalidate, toast_error, success, failure, Detail, detail_or}

pub data EntityType : Type 0 where
  domain email keyword : EntityType

abbrev pub entity_text : EntityType → String
entity_text domain = "domain"
entity_text email = "email"
entity_text keyword = "keyword"

pub record DarkWeb : Type 0 where
  pub entity_type : EntityType
  pub query : String
  pub result : Option Json
  pub loading : Bool
  pub add_type : EntityType
  pub add_value : String
  -- a search is awaited
  pub waiting : Bool

unfoldable pub opened : DarkWeb
opened = record {
  entity_type = domain;
  query = "";
  result = none;
  loading = false;
  add_type = domain;
  add_value = "";
  waiting = false;
}

pub data Event : Type 0 where
  pick_type : EntityType → Event
  type_query : String → Event
  submit_search : Event
  pick_add_type : EntityType → Event
  type_value : String → Event
  submit_asset : Event
  scan : (id : String) → Event
  delete : (id : String) (confirmed : Bool) → Event
  pick_finding_status : (id status : String) → Event
  -- answers of the server
  search_reply : Json → Event
  search_failed : Event
  asset_added : Event
  asset_failed : Detail → Event
  scan_queued : Event
  scan_failed : Event
  asset_deleted : Event
  delete_failed : Event
  finding_updated : Event
  finding_failed : Event

-- `handleSearch` up to its `await`; the form is not submitted while its button is disabled
handle_search : DarkWeb → DarkWeb × List Effect
handle_search p = if p.loading || not (truthy (trim p.query)) then (p, []) else (
  record p { loading = true; result = none; waiting = true },
  send (intel (darkweb_search (trim p.query) (entity_text p.entity_type))) ∷ [],
)

search_replied : DarkWeb → Json → DarkWeb × List Effect
search_replied p j =
    if p.waiting
    then (record p { result = some j; loading = false; waiting = false }, [])
    else (p, [])

search_refused : DarkWeb → DarkWeb × List Effect
search_refused p =
    if p.waiting
    then (
      record p { loading = false; waiting = false },
      failure "Search failed — check dark web provider configuration" ∷ [],
    )
    else (p, [])

-- `handleAddAsset` up to its `await`
handle_add_asset : DarkWeb → List Effect
handle_add_asset p =
    if truthy (trim p.add_value)
    then send (
        intel (
          darkweb_create_asset (
            obj (
              field "value" (str (trim p.add_value))
                (field "entity_type" (str (entity_text p.add_type)) end)))))
      ∷ []
    else []

-- `handleDelete`, with the answer to its question
handle_delete : String → Bool → List Effect
handle_delete id confirmed = if confirmed then send (intel (darkweb_delete_asset id)) ∷ [] else []

unfoldable pub act : DarkWeb → Event → DarkWeb × List Effect
unfolding handle_search search_replied search_refused handle_add_asset handle_delete
act p (pick_type t) = (record p { entity_type = t; result = none }, [])
act p (type_query s) = (record p { query = s }, [])
act p submit_search = handle_search p
act p (pick_add_type t) = (record p { add_type = t }, [])
act p (type_value s) = (record p { add_value = s }, [])
act p submit_asset = (p, handle_add_asset p)
act p (scan id) = (p, send (intel (darkweb_scan_asset id)) ∷ [])
act p (delete id confirmed) = (p, handle_delete id confirmed)
act p (pick_finding_status id status) = (p, send (intel (darkweb_update_finding id status)) ∷ [])
act p (search_reply j) = search_replied p j
act p search_failed = search_refused p
act p asset_added = (
  record p { add_value = "" },
  success "Now monitoring — first scan queued" ∷ invalidate (str "darkweb-assets" ∷ []) ∷ [],
)
act p (asset_failed d) = (p, toast_error (detail_or d "Could not add asset") ∷ [])
act p scan_queued = (p, success "Rescan queued" ∷ [])
act p scan_failed = (p, failure "Could not queue scan" ∷ [])
act p asset_deleted =
    (p, invalidate (str "darkweb-assets" ∷ []) ∷ invalidate (str "darkweb-findings" ∷ []) ∷ [])
act p delete_failed = (p, failure "Could not delete asset" ∷ [])
act p finding_updated =
    (p, invalidate (str "darkweb-findings" ∷ []) ∷ invalidate (str "darkweb-stats" ∷ []) ∷ [])
act p finding_failed = (p, failure "Could not update finding" ∷ [])

unfoldable pub run : DarkWeb → List Event → DarkWeb
run p [] = p
run p (e ∷ es) = run (act p e).0 es
