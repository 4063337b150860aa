-- ===== src/Engine/Provider.antt =====
-- `_build_obs` and `_provider_action`: one validated request to a player's agent.
use werewolf_agent.Engine.Exec.{gets, halt, leak, pure, ◌>>=◌, ◌>>◌}
use werewolf_agent.Engine.State.{
  AgentReply, Board, Game, M, Observation, World, acted, agent_error, append_turn, charge,
  error_fallback, fallback_kind_for, live_success, player_of, provider_action_error, record_failure,
}
use werewolf_agent.Log.{Player, TurnRow}
use werewolf_agent.Prelude.{
  List, Option, String, [], concat, if◌then◌else◌, none, show_padded_two, some, sorted, str_leb,
  string_eq, true, ℕ, ◌==◌, ◌∷◌,
}
use werewolf_agent.Runtime.Envelope.{target}
use werewolf_agent.Runtime.Turn.{AgentAction}
use werewolf_agent.Visibility.Engine.{private_refs_for_role, public_refs}
use werewolf_agent.Visibility.Guard.{Leak, assert_prompt_entitled, events_by_id}
use werewolf_agent.Visibility.Observer.{seat_index_from_players}

unfoldable pub build_obs : Board → Player → (phase : String) → (rnd : ℕ) → Game → Observation
build_obs b p phase rnd g = record {
  player = p;
  phase = phase;
  round = rnd;
  alive_players = sorted str_leb g.alive;
  public_event_ids = public_refs g.events;
  private_event_ids = private_refs_for_role g.events p.role (some p.team);
}

unfoldable pub guard_answer : Option Leak → M Unit
guard_answer none = pure tt
guard_answer (some fault) = halt (leak fault)

-- assert_prompt_entitled on the renderer's sources
unfoldable pub guard_prompt : Board → String → List String → M Unit
unfolding guard_answer
guard_prompt b seat sources g =
    guard_answer
      (assert_prompt_entitled seat sources (events_by_id g.events [])
        (seat_index_from_players b.players))
      g

-- the row of a turn before the answer is known
unfoldable pub new_turn :
    Board
    → (suffix : String) → (pid phase response_kind : String) → (rnd : ℕ) → List String
    → TurnRow
new_turn b suffix pid phase response_kind rnd sources = record {
  request_id = concat (b.game_id ∷ "_r" ∷ show_padded_two rnd ∷ "_" ∷ pid ∷ suffix ∷ []);
  round = rnd;
  phase = phase;
  actor = pid;
  response_kind = response_kind;
  live_requested = true;
  kind = "";
  fallback_reason = none;
  observation_source_event_ids = sources;
}

-- the row of the turn after the reply
answered : TurnRow → AgentReply → TurnRow
answered turn (acted a) = record turn { kind = live_success }
answered turn (provider_action_error kind reason target) = record turn {
  kind = fallback_kind_for kind;
  fallback_reason = some reason;
}
answered turn (agent_error text) = record turn {
  kind = error_fallback;
  fallback_reason = some text;
}

-- The reply of the agent, and the request id of its turn.
unfoldable pub provider_action :
    World → Board → (pid phase : String) → (rnd : ℕ) → M (AgentReply × String)
unfolding build_obs guard_prompt new_turn answered charge append_turn player_of
provider_action world b pid phase rnd = do
  charge b
  p ← player_of b pid
  obs ← gets (build_obs b p phase rnd)
  sources ← gets (λ g. world.sources obs g.events)
  guard_prompt b pid sources
  call ← gets (λ g. g.used)
  let reply = world.decide call obs
  let turn = new_turn b (if phase == "day" then "_vote" else "") pid phase "action" rnd sources
  append_turn (answered turn reply)
  pure (reply, turn.request_id)

-- what the engine records of a reply that is no action
unfoldable pub note_error : (rnd : ℕ) → (phase actor : String) → AgentReply → M Unit
unfolding record_failure
note_error rnd phase actor (acted a) = pure tt
note_error rnd phase actor (provider_action_error kind reason target) =
    record_failure rnd phase actor kind reason target
note_error rnd phase actor (agent_error text) =
    record_failure rnd phase actor "agent_error" (concat (actor ∷ " raised " ∷ text ∷ [])) none

abbrev pub live_action : AgentReply → Option AgentAction
live_action (acted a) = some a
live_action _ = none
