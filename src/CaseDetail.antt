-- ===== src/CaseDetail.antt =====
-- The page of one case, frontend/src/pages/CaseDetail.tsx, by its parts: the header with the
-- classification dialog, the timeline with its picker, the tasks, and the other collections.
pub mod Header
pub mod Verdict
pub mod Timeline
pub mod Tasks
pub mod Observables
pub mod Register
pub mod Writing
pub mod Laws
pub mod Dialog
pub mod Frame
pub mod Queries
pub mod Refresh
