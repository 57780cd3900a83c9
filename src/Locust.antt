-- ===== src/Locust.antt =====
-- grizzly/locust.py: how users are handed out to workers.
pub mod Sorting
pub mod Cycle
pub mod Sticky
pub mod Counts
pub mod Dispatcher
pub mod Active
pub mod Sums
pub mod Distribution
