-- ===== src/Engine.antt =====
-- The emergent game engine (src/werewolf_eval/emergent_engine.py) on a board without a human seat.
-- A method is an action on the engine's state that may stop by an exception; what was written
-- before the exception stays written.
pub mod Exec
pub mod State
pub mod Provider
pub mod Turns
pub mod Wolves
pub mod Witch
pub mod Hunter
pub mod Night
pub mod Day
pub mod Run
pub mod Frame
pub mod Kill
pub mod History
pub mod Deaths
pub mod Later
pub mod Cascade
