-- ===== src/Examples.antt =====
-- The theorems at concrete inputs, and tests of the definitions.
mod SignIn
mod Pages
mod Dashboards
mod CaseDetails
mod Workflows
mod Engines
mod Platforms
mod Routing
mod Updates
mod Backend
mod Walks
