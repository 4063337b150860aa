-- ===== src/Checker/Run.antt =====
-- check_i1 over the logs of run of emergent_engine.py.
use werewolf_agent.Checker.Commits.{check_i1}
use werewolf_agent.Checker.Commits.Once.{checks-Once}
use werewolf_agent.Checker.Rows.{RunArtifacts}
use werewolf_agent.Engine.Deaths.{run-IsAccounted}
use werewolf_agent.Engine.Run.{GameOutcome, completed, failed, run}
use werewolf_agent.Engine.State.{Board, Game, World, initial_game}
use werewolf_agent.Prelude.{String, [], if◌then◌else◌, is_empty, refl, ◌∷◌, ◌≡◌}

-- `RunArtifacts.from_outcome`: the logs of the final state, where the game was completed
unfoldable pub from_outcome : (game_id : String) → Board → Game → GameOutcome → RunArtifacts
from_outcome game_id b g (completed result) = record {
  game_id = game_id;
  players = b.players;
  events = g.events;
  decisions = g.decisions;
  provider_turns = g.provider_turns;
  gaps = if is_empty g.events then "game_log.events" ∷ [] else [];
}
from_outcome game_id b g (failed end_condition) = record {
  game_id = "";
  players = [];
  events = [];
  decisions = [];
  provider_turns = g.provider_turns;
  gaps = "game_log.events" ∷ [];
}

-- Whatever the outcome of a game, check_i1 reports nothing on it: no death was committed twice.
pub run-check_i1 :
    (b : Board) (world : World) (game_id : String) (outcome : GameOutcome)
    → check_i1 (from_outcome game_id b (run world b (initial_game b)).1 outcome) ≡ []
unfolding from_outcome
run-check_i1 b world game_id (completed result) =
    let g = (run world b (initial_game b)).1 in
    let accounted = run-IsAccounted b world in
    (checks-Once (from_outcome game_id b g (completed result))).0.1
      (rw accounted.told accounted.once)
run-check_i1 b world game_id (failed end_condition) =
    let g = (run world b (initial_game b)).1 in
    (checks-Once (from_outcome game_id b g (failed end_condition))).0.1 refl
