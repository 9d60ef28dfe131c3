-- ===== src/CaseDetail/Queries.antt =====
-- The queries of the case page, each asked only where the address holds an id.
use socblitz.Common.{String, true, List, [], ◌∷◌, truthy}
use socblitz.Common.Json.{Json, str}
use socblitz.Api.{
  CaseCall, cases, get_case, get_case_timeline, list_case_alerts, get_observables, list_case_tasks,
  get_comments, list_case_assets, list_case_evidence, list_case_notes, list_mitre_techniques,
}
use socblitz.Ui.{Query, Effect, invalidate}

abbrev query : String → String → CaseCall → Query
query name id c = record { key = str name ∷ str id ∷ []; call = cases c; enabled = truthy id }

unfoldable pub queries : String → List Query
queries id =
    query "case" id (get_case id)
    ∷ query "case-timeline" id (get_case_timeline id)
    ∷ query "case-alerts" id (list_case_alerts id)
    ∷ query "case-observables" id (get_observables id)
    ∷ query "case-tasks" id (list_case_tasks id)
    ∷ query "case-comments" id (get_comments id)
    ∷ query "case-assets" id (list_case_assets id)
    ∷ query "case-evidence" id (list_case_evidence id)
    ∷ query "case-notes" id (list_case_notes id)
    ∷ record {
      key = str "mitre-techniques" ∷ [];
      call = cases list_mitre_techniques;
      enabled = true;
    }
    ∷ []

-- the keys that the page's effects invalidate
abbrev pub invalidated : List Effect → List (List Json)
invalidated [] = []
invalidated (invalidate k ∷ es) = k ∷ invalidated es
invalidated (_ ∷ es) = invalidated es

abbrev pub keys : List Query → List (List Json)
keys [] = []
keys (q ∷ qs) = q.key ∷ keys qs
