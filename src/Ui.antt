-- ===== src/Ui.antt =====
-- What the handlers of the pages ask of the libraries: API calls, changes of the query cache,
-- toasts and navigation. A handler returns these in the order in which the source makes them.
pub mod Table
use socblitz.Common.{ℕ, String, Bool, List, [], ◌∷◌, or_text}
use socblitz.Common.Json.{Json}
use socblitz.Api.{Call}

-- The parts of a message: text and values put in. A detail that is no text is shown as it is.
pub data Part : Type 0 where
  say : String → Part
  number : ℕ → Part
  value : Json → Part

pub data Effect : Type 0 where
  send : Call → Effect
  invalidate : List Json → Effect
  set_query_data : List Json → Json → Effect
  toast_success : List Part → Effect
  toast_error : List Part → Effect
  toast_hint : List Part → Effect
  navigate : String → Effect
  -- `` navigate(`/soar/${id}/edit`, { replace: true }) ``
  replace_by_editor : (id : String) → Effect
  clipboard : List String → Effect

-- the API calls among the effects
abbrev pub calls : List Effect → List Call
calls [] = []
calls (send c ∷ es) = c ∷ calls es
calls (_ ∷ es) = calls es

abbrev pub success : String → Effect
success s = toast_success (say s ∷ [])

abbrev pub failure : String → Effect
failure s = toast_error (say s ∷ [])

-- the detail that a failed API call carries, as the handlers read `err.response.data.detail`
pub data Detail : Type 0 where
  no_detail : Detail
  text : String → Detail
  -- FastAPI's array of field errors
  field_errors : Json → Detail

-- `detail || fallback`, as the argument of a toast
abbrev pub detail_or : Detail → String → List Part
detail_or no_detail fallback = say fallback ∷ []
detail_or (text s) fallback = say (or_text s fallback) ∷ []
detail_or (field_errors j) fallback = value j ∷ []

-- What a page gives `useQuery`: the key of the cache, the call, and whether it may run.
pub record Query : Type 0 where
  pub key : List Json
  pub call : Call
  pub enabled : Bool
