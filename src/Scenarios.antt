-- ===== src/Scenarios.antt =====
-- The scenarios that users run, grizzly/scenarios.
pub mod Iterator
