-- ===== src/Runtime.antt =====
-- The agent action runtime (src/werewolf_eval/action_runtime): the rule layer of the game. A module
-- for each file of the package; the proofs are in the modules below those.
pub mod State
pub mod Envelope
pub mod Abilities
pub mod Ruleset
pub mod Registry
pub mod Validator
pub mod Settler
pub mod Triggers
pub mod Tally
pub mod Turn
pub mod Wolves
