-- ===== src/Cases/Closing.antt =====
-- Closing a case from the case list, frontend/src/pages/Cases.tsx, beside the case page,
-- frontend/src/pages/CaseDetail.tsx.
use socblitz.Common.{String, false, ◌≡◌, Option, [], ◌∷◌, All, arith, eq_iff, eq_refl}
use socblitz.Common.Json.{str, obj, field, end}
use socblitz.Api.{cases, update_case}
use socblitz.Ui.{calls}
use socblitz.CaseDetail.Header.{Case, Header, pick_status, is_classified, listed, act}
use socblitz.CaseDetail.Verdict.{keeps_verdict}
use socblitz.Cases.Table.{resolve_case}

-- A case in progress has no classification. On the case page, picking the status resolved sends nothing
-- yet. In the case list the button Resolve sends one update, which sets a closing status and carries no
-- classification.
pub resolve_case-keeps_verdict :
    (id : String) (user_id : Option String) (h : Header) (c : Case)
    → c.status ≡ "in_progress"
    → is_classified c.classification ≡ false
    → ((act id user_id c h (pick_status "resolved")).1 ≡ [])
      × (calls (resolve_case id c.status)
          ≡ cases (update_case id (obj (field "status" (str "resolved") end))) ∷ [])
      × All (λ call. keeps_verdict c call ≡ false) (calls (resolve_case id c.status))
unfolding act resolve_case listed
resolve_case-keeps_verdict id user_id h c s k =
    ground (arith, eq_iff c.status "in_progress", eq_refl "resolved")
