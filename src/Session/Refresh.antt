-- ===== src/Session/Refresh.antt =====
-- Which queries of other pages the answer to an update makes React Query ask again. Whether the key of
-- `invalidateQueries` fits the key of a query is decided by the library, which documents that it does where
-- it is a prefix.
use socblitz.Common.{
  String, Bool, true, false, ◌≡◌, ◌≢◌, refl, ◌↔◌, inl, inr, List, [], ◌∷◌, ◌++◌, any, Bool-cases,
  eq_iff, arith,
}
use socblitz.Common.Json.{Json, str}
use socblitz.Ui.{Effect, Query}
use socblitz.TimeRange.{TimeRange}
use socblitz.CaseDetail.Queries.{invalidated, queries}
use socblitz.CaseDetail.Header.{invalidate_case}
use socblitz.Cases.Table.{cases_query, case_updated}
use socblitz.Alerts.{alert_updated}
use socblitz.Alerts.Queries.{alerts_key, range_json}
use socblitz.AlertDetail.{AlertDetail, alert_query, link_query, updated, act}

-- the documented test of `invalidateQueries`
abbrev pub ByPrefix : (List Json → List Json → Bool) → Type 0
ByPrefix fits =
    (filter key : List Json)
    → (fits filter key ≡ true) ↔ ((rest : List Json) × (filter ++ rest ≡ key))

-- a query with this key is asked again
abbrev pub refreshes : (List Json → List Json → Bool) → List Effect → List Json → Bool
refreshes fits effects key = any (λ filter. fits filter key) (invalidated effects)

abbrev key_of : Query → List Json
key_of q = q.key

module _ (fits : List Json → List Json → Bool) (by_prefix : ByPrefix fits) where
  fits-prefix : (filter rest : List Json) → fits filter (filter ++ rest) ≡ true
  fits-prefix filter rest = (by_prefix filter (filter ++ rest)).1 (rest, refl)

  head_of :
      (filter rest key : List Json) (a b : String) → str a ∷ filter ++ rest ≡ str b ∷ key → a ≡ b
  head_of filter rest key a b e = ground (arith, e)

  fits-apart :
      (a b : String) (filter key : List Json) → a ≢ b → fits (str a ∷ filter) (str b ∷ key) ≡ false
  fits-apart a b filter key n = elim (Bool-cases (fits (str a ∷ filter) (str b ∷ key))) [
    | inl e ↦
        let (rest, p) = (by_prefix (str a ∷ filter) (str b ∷ key)).0 e in
        absurd (n (head_of filter rest key a b p))
    | inr e ↦ e
  ]

  cases_apart :
      (b : String) (key : List Json) → "cases" ≢ b → fits (str "cases" ∷ []) (str b ∷ key) ≡ false
  cases_apart b key n = fits-apart "cases" b [] key n

  -- Where React Query fits keys by prefix: the answer to an update from the page of an alert makes it ask again
  -- for that alert and for the list, whatever is chosen there. The answer to an update from the list makes it
  -- ask again for the list, but for no alert.
  pub alert_updated-refreshes :
      (p : AlertDetail) (sev status q : String) (r : TimeRange)
      → (refreshes fits (act p updated).1 (alerts_key sev status r q) ≡ true)
        × (refreshes fits (act p updated).1 (alert_query p).key ≡ true)
        × (refreshes fits alert_updated (alerts_key sev status r q) ≡ true)
        × (refreshes fits alert_updated (alert_query p).key ≡ false)
  unfolding act alert_query alerts_key alert_updated
  alert_updated-refreshes p sev status q r = ground (
    arith,
    fits-prefix (str "alert" ∷ str p.id ∷ []) [],
    fits-prefix (str "alerts" ∷ []) (str sev ∷ str status ∷ range_json r ∷ str q ∷ []),
    fits-apart "alerts" "alert" [] (str p.id ∷ [])
        (λ e. ground (arith, e, eq_iff "alerts" "alert")),
  )

  -- Where React Query fits keys by prefix: the answer to an update from the page of a case makes it ask again for
  -- that case, for the list of cases, and for the list in the page of an alert. The answer to an update from
  -- the list makes it ask again for the two lists, but for nothing that the page of a case shows.
  pub case_updated-refreshes :
      (id : String) (p : AlertDetail)
      → (refreshes fits (invalidate_case id) (str "case" ∷ str id ∷ []) ≡ true)
        × (refreshes fits (invalidate_case id) cases_query.key ≡ true)
        × (refreshes fits (invalidate_case id) (link_query p).key ≡ true)
        × (refreshes fits case_updated cases_query.key ≡ true)
        × (refreshes fits case_updated (link_query p).key ≡ true)
        × (any (λ query. refreshes fits case_updated query.key) (queries id) ≡ false)
  unfolding invalidate_case cases_query link_query case_updated queries
  case_updated-refreshes id p = ground (
    arith,
    fits-prefix (str "case" ∷ str id ∷ []) [],
    fits-prefix (str "cases" ∷ []) [],
    fits-prefix (str "cases" ∷ []) (str "for-link" ∷ []),
    cases_apart "case" (str id ∷ []) (λ e. ground (arith, e, eq_iff "cases" "case")),
    cases_apart "case-timeline" (str id ∷ [])
        (λ e. ground (arith, e, eq_iff "cases" "case-timeline")),
    cases_apart "case-alerts" (str id ∷ []) (λ e. ground (arith, e, eq_iff "cases" "case-alerts")),
    cases_apart "case-observables" (str id ∷ [])
        (λ e. ground (arith, e, eq_iff "cases" "case-observables")),
    cases_apart "case-tasks" (str id ∷ []) (λ e. ground (arith, e, eq_iff "cases" "case-tasks")),
    cases_apart "case-comments" (str id ∷ [])
        (λ e. ground (arith, e, eq_iff "cases" "case-comments")),
    cases_apart "case-assets" (str id ∷ []) (λ e. ground (arith, e, eq_iff "cases" "case-assets")),
    cases_apart "case-evidence" (str id ∷ [])
        (λ e. ground (arith, e, eq_iff "cases" "case-evidence")),
    cases_apart "case-notes" (str id ∷ []) (λ e. ground (arith, e, eq_iff "cases" "case-notes")),
    cases_apart "mitre-techniques" [] (λ e. ground (arith, e, eq_iff "cases" "mitre-techniques")),
  )
