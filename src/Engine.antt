-- ===== src/Engine.antt =====
-- The engine page, frontend/src/pages/SocBlitzEngine.tsx. Each tab is a child module; a tab is opened
-- afresh whenever it is picked, since the page unmounts the others.
pub mod Clean
pub mod CleanLaws
pub mod Trials
pub mod RuleGen
pub mod Yaral
pub mod Parsers
pub mod Page
pub mod Answers
