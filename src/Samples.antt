-- ===== src/Samples.antt =====
-- A small game on which the witnesses and the tests run.
use werewolf_agent.Engine.Exec.{Answer}
use werewolf_agent.Engine.Run.{GameOutcome, run}
use werewolf_agent.Engine.State.{
  AgentReply, Board, Game, ProviderReply, World, acted, initial_game, object, spoken, str,
}
use werewolf_agent.Log.{Player}
use werewolf_agent.Prelude.{List, String, [], if◌then◌else◌, none, some, string_eq, ◌==◌, ◌∷◌}
use werewolf_agent.Runtime.Envelope.{target}
use werewolf_agent.Runtime.Ruleset.{rules_v1_2}

abbrev player : (player_id role team : String) → Player
player player_id role team = record { player_id = player_id; role = role; team = team }

abbrev pub six_players : List Player
six_players =
    player "p1" "werewolf" "werewolf"
    ∷ player "p2" "werewolf" "werewolf"
    ∷ player "p3" "seer" "villager"
    ∷ player "p4" "witch" "villager"
    ∷ player "p5" "guard" "villager"
    ∷ player "p6" "hunter" "villager"
    ∷ []

abbrev pub six_board : Board
six_board = record {
  game_id = "g1";
  players = six_players;
  rules = rules_v1_2;
  max_requests = 80;
  max_day_rounds = 3;
}

act : (name target : String) → AgentReply
act name target = acted (record { action = name; target = target })

-- the wolves hunt p6, everybody votes for p1, the guard protects itself
sample_decide : String → String → AgentReply
sample_decide phase role =
    if phase == "day"
    then act "player_vote" "p1"
    else if role == "werewolf"
    then act "werewolf_kill" "p6"
    else if role == "seer"
    then act "seer_check" "p1"
    else act "guard_protect" "p5"

sample_respond : String → ProviderReply
sample_respond role =
    if role == "hunter"
    then object (some (str "hunter_shoot")) (some (str "p2"))
    else object (some (str "witch_pass")) none

abbrev pub sample_world : World
unfolding sample_decide sample_respond act
sample_world = record {
  decide = λ n obs. sample_decide obs.phase obs.player.role;
  respond = λ n obs. sample_respond obs.player.role;
  speak = λ n obs. spoken "hello";
  strip = λ s. s;
  draw = λ n k. 0;
  sources = λ obs events. obs.public_event_ids;
}

unfoldable pub sample_game : Answer GameOutcome × Game
unfolding run sample_decide sample_respond act
sample_game = run sample_world six_board (initial_game six_board)
