-- ===== src/Checker.antt =====
-- invariants/checker.py: the checks of a finished game.
pub mod Rows
pub mod Commits
pub mod Actors
pub mod Sources
pub mod Nights
pub mod Reveals
pub mod Report
pub mod Run
