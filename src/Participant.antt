-- ===== src/Participant.antt =====
-- The human seat (src/werewolf_eval/participant_protocol.py, participant_controller.py): the checks of
-- the protocol, and the store of action windows that the HTTP threads and the run thread share.
pub mod Errors
pub mod Names
pub mod Payload
pub mod Window
pub mod Idempotency
pub mod Controller
pub mod Overview
pub mod Submit
pub mod Wait
pub mod Steps
pub mod Life
pub mod Calls
pub mod Submissions
pub mod Refusals
pub mod Resubmit
pub mod Finality
