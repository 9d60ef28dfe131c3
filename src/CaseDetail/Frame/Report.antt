-- ===== src/CaseDetail/Frame/Report.antt =====
-- The requests for the report of a case, and their answers.
use socblitz.Common.{ℕ, ◌+◌, String, ◌≡◌, refl, List, [], ◌∷◌, arith, if◌then◌else◌, length}
use socblitz.Ui.{calls}
use socblitz.CaseDetail.Frame.{
  Frame, Event, downloaded, download_failed, press, settle, opened, act, run,
}

-- what the page asks the server for
abbrev pub asked : String → Frame → List Event → ℕ
asked id f [] = 0
asked id f (e ∷ es) = length (calls (act id f e).1) + asked id (act id f e).0 es

-- an answer ends a download that is awaited
abbrev pub ends : Frame → Event → ℕ
ends f downloaded = if f.downloading then 1 else 0
ends f download_failed = if f.downloading then 1 else 0
ends f _ = 0

abbrev pub answered : String → Frame → List Event → ℕ
answered id f [] = 0
answered id f (e ∷ es) = ends f e + answered id (act id f e).0 es

abbrev pub awaited : Frame → ℕ
awaited f = if f.downloading then 1 else 0

act-balance :
    (id : String) (f : Frame) (e : Event)
    → length (calls (act id f e).1) + awaited f ≡ ends f e + awaited (act id f e).0
unfolding act press settle
act-balance id f e = ground arith

balance :
    (id : String) (f : Frame) (es : List Event)
    → asked id f es + awaited f ≡ answered id f es + awaited (run id f es)
unfolding run
balance id f [] = refl
balance id f (e ∷ es) = omega (arith, act-balance id f e, balance id (act id f e).0 es)

-- Whatever happens on the page since it was opened, as many reports were asked for as answers have arrived,
-- and one more exactly while the button shows that a report is being generated.
pub run-asked :
    (id : String) (es : List Event)
    → asked id opened es ≡ answered id opened es + (if (run id opened es).downloading then 1 else 0)
unfolding opened
run-asked id es = omega (arith, balance id opened es)
