-- ===== src/Tasks.antt =====
-- The tasks of a scenario, grizzly/tasks.
pub mod Parent
pub mod Request
mod Examples
pub mod Until
pub mod Loop
pub mod Conditional
pub mod AsyncGroup
pub mod Timer
pub mod Wait
pub mod Keystore
