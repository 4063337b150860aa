-- ===== src/Lib.antt =====
-- The rules, the visibility and the game engine of the werewolf agent.
--
-- The program plays games of werewolf between language models and writes logs that are checked and
-- shown afterwards. This library models its core:
--
-- - Runtime (src/werewolf_eval/action_runtime): the rule layer, without state of its own. State and
--   Envelope are the read model and the envelope of an action (state.py, envelope.py); Abilities and
--   Ruleset the target predicates and the boards (abilities.py, ruleset.py); Registry and Validator
--   which actions and targets are legal (registry.py, validator.py); Settler the joint settlement of a
--   night (settler.py); Triggers the death queue (triggers.py); Turn and Wolves the verdicts on one
--   actor's turn and on the wolf team's kill (turn.py); Tally the count of votes (from
--   emergent_engine.py, _run_vote_round). Names are those of the source; `from_legacy`, `validate`,
--   `resolve_night`, `resolve`, `adjudicate` and `render` are the methods of the same name.
-- - Log: the rows of the logs (game_log.py, decision_log.py, and the dictionaries of the engine).
-- - Visibility: what a seat may see, twice: Engine is role_visibility.py, by which the engine builds
--   its prompts; Observer is event_visible_in_projection of observer_projection.py, reached through
--   invariants/visibility_oracle.py; Trust is the index of observer_trust_index.py, which says what
--   the snapshots of a run back, and Projection what observer_projection.py shows of it; Guard is
--   invariants/guards.py, which stops a game where the two differ.
-- - Engine (src/werewolf_eval/emergent_engine.py): the game. Exec is a method of the engine: it changes
--   the state, and returns or stops by an exception. State holds the attributes that a game changes
--   (`Game`), what the constructor fixes (`Board`), and the writers of the logs (_emit, _decision,
--   _record_failure, charge, _draw). Provider is _build_obs and _provider_action; Turns _run_single_turn
--   with seer, guard and votes; Wolves _run_wolf_kill; Witch _resolve_witch; Hunter
--   _resolve_hunter_shot and _trigger_on_death; Night and Day the two halves of a round of _run_inner
--   with _resolve_speech; Run _win_check, _run_inner, _failed_outcome, run and the checks of the
--   constructor. The engine asks Runtime for verdicts and Visibility for refs and for the guard.
--   Frame goes through all methods once: a relation that the few primitive changes respect holds
--   between the states before and after a game. History, Deaths and Later
--   are its uses, Kill is the burial of a player as one change, and Cascade is about the fuel of the
--   shots.
-- - Participant (src/werewolf_eval/participant_protocol.py and participant_controller.py): the human
--   seat. Errors, Names, Payload, Window and Idempotency are the protocol: ids, cursors, payloads,
--   windows and submissions with their checks, and the ledger of idempotency keys. Controller, Submit
--   and Wait are InMemoryParticipantActionController, each method a function on the store (`Controller`),
--   since it runs under one lock; `poll` is one pass of the loop of wait_for_action. Steps is the calls
--   of the threads in any order; Overview is ensure_single_open_action_window and the methods that only
--   read; Life, Calls, Submissions, Refusals, Resubmit and Finality hold the
--   proofs.
-- - Checker (src/werewolf_eval/invariants/checker.py, artifacts.py): the checks of a finished game. Rows
--   is the artifacts and the violations, Commits check_i1, check_i3 and check_i5, Actors check_i2 and
--   check_i6, Sources check_prompt_subset and check_i4b, Nights check_i8 and check_i8c, Reveals
--   check_i7, Report check_run; Run is the artifacts of a modelled game. The checks stand on the rows of
--   Log, on the seat index of Visibility, and are compared with its guard and with Runtime.Settler.
-- - Prelude: lists, dictionaries as association lists, sorting, text, results. Samples and Tests: a
--   board for six, a game on it, and the theorems at concrete inputs.
--
-- Outside code is the parameter `World`: the replies of agents and providers by the number of the
-- request, the random numbers by the number of the draw, the event ids that a rendered prompt cites, and
-- `str.strip`. Nothing is assumed of it. For the human seat it is `PyText`: `str.strip` and the digits that
-- `int` reads. There `IsPython` is assumed: a stripped text has nothing to strip, and the ASCII digits
-- have their values. For check_i7 it is the class `\w` of the regular expressions. The clock is the schedule of a wait: whether the deadline has passed at a pass.
--
-- A set is a list of which the membership is read, kept in one order. The death queue has one step of
-- fuel for each initial death and each living player, and each step processes a new player. A cascade of
-- shots in the engine has one step for each living player and one more. The rounds
-- are counted by max_day_rounds.
--
-- Not modelled: the turns of the engine for a human seat, participant sessions and the envelopes of
-- answers, the scribe of the scaffold prompts, the consensus entries, the writing and listing of
-- snapshots and partial logs, the text of prompts; and the parts of the program around the engine:
-- providers, prompts, scoring, audits, the observer server, release host, experiments and clients.
pub mod Prelude
pub mod Runtime
pub mod Log
pub mod Checker
pub mod Visibility
pub mod Engine
pub mod Participant
pub mod Samples
pub mod Tests
