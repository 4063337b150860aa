-- ===== src/Engine/State.antt =====
-- The state of a game, what the engine is given from outside, and the helpers that write the logs.
use werewolf_agent.Engine.Exec.{
  Exec, budget_exhausted, done, double_death_commit, halt, lift, modify, stop,
}
use werewolf_agent.Log.{DecisionEntry, Event, FailureEntry, Player, TurnRow}
use werewolf_agent.Prelude.{
  Bool, List, Option, String, [], concat, elem, filter, find, if◌then◌else◌, length, ltb, map, none,
  not, show_padded_three, some, string_eq, suc, truncate, zero, ℕ, ◌&&◌, ◌++◌, ◌+◌, ◌==◌, ◌∷◌,
}
use werewolf_agent.Prelude.Result.{index_error, key_error, or_raise}
use werewolf_agent.Runtime.Envelope.{target}
use werewolf_agent.Runtime.Ruleset.{BoardRuleset}
use werewolf_agent.Runtime.State.{RuntimeState}
use werewolf_agent.Runtime.Turn.{AgentAction, DecisionRow}
use werewolf_agent.Visibility.Guard.{assert_death_commit_once}

-- `GameConfig` with what the constructor derives from it and from its other arguments
pub record Board : Type 0 where
  pub game_id : String
  pub players : List Player
  pub rules : BoardRuleset
  pub max_requests : ℕ
  pub max_day_rounds : ℕ

-- the attributes that the engine changes
pub record Game : Type 0 where
  pub events : List Event
  pub decisions : List DecisionEntry
  pub failures : List FailureEntry
  pub provider_turns : List TurnRow
  pub seq : ℕ
  pub d_counter : ℕ
  pub alive : List String
  pub death_committed : List String
  pub last_guarded : Option String
  pub used : ℕ
  pub draws : ℕ

-- `AgentObservation`, as `_build_obs` fills it; `known_roles` is only rendered
pub record Observation : Type 0 where
  pub player : Player
  pub phase : String
  pub round : ℕ
  pub alive_players : List String
  pub public_event_ids : List String
  pub private_event_ids : List String

-- what `ProviderAgent.decide` does: it returns an action, or raises
pub data AgentReply : Type 0 where
  acted : AgentAction → AgentReply
  provider_action_error : (kind reason : String) → Option String → AgentReply
  agent_error : String → AgentReply

-- A value of a JSON object. A list or an object is not hashable.
pub data Json : Type 0 where
  null : Json
  str : String → Json
  scalar : String → Json
  unhashable : String → Json

-- what `provider.respond` and `json.loads` give: an exception, no JSON object, or an object, of
-- which `action` and `target` are read
pub data ProviderReply : Type 0 where
  respond_error : (kind reason : String) → ProviderReply
  parse_error : String → ProviderReply
  object : Option Json → Option Json → ProviderReply

-- the raw content of a speech, or an exception
pub data SpeechReply : Type 0 where
  spoken speech_error : String → SpeechReply

-- The world outside: the agents and providers, asked by the number of the call; the seeded random
-- numbers, by the number of the draw and the number of choices; the renderer's source ids; and
-- Python's `strip`.
pub record World : Type 0 where
  pub decide : ℕ → Observation → AgentReply
  pub respond : ℕ → Observation → ProviderReply
  pub speak : ℕ → Observation → SpeechReply
  -- `str.strip`
  pub strip : String → String
  pub draw : ℕ → ℕ → ℕ
  pub sources : Observation → List Event → List String

abbrev pub M : Type 0 → Type 0
M A = Exec Game A

unfoldable pub initial_game : Board → Game
initial_game b = record {
  events = [];
  decisions = [];
  failures = [];
  provider_turns = [];
  seq = 0;
  d_counter = 0;
  alive = map (λ p. p.player_id) b.players;
  death_committed = [];
  last_guarded = none;
  used = 0;
  draws = 0;
}

-- EmergentBudget.charge
unfoldable pub charge : Board → M Unit
charge b g =
    let used = g.used + 1 in
    let g' = record g { used = used } in
    if ltb b.max_requests used
    then (stop (budget_exhausted used b.max_requests), g')
    else (done tt, g')

abbrev pub new_event :
    Board → (seq rnd : ℕ) → (phase etype actor target visibility summary : String) → Event
new_event b seq rnd phase etype actor target visibility summary = record {
  event_id = concat (b.game_id ∷ "_e" ∷ show_padded_three seq ∷ []);
  sequence = seq;
  round = rnd;
  phase = phase;
  type = etype;
  actor = actor;
  target = target;
  visibility = visibility;
  summary = summary;
  visible_info_refs = [];
}

unfoldable pub emit :
    Board → (phase : String) → (rnd : ℕ) → (etype actor target visibility summary : String) → M Unit
emit b phase rnd etype actor target visibility summary g =
    let seq = g.seq + 1 in
    let e = new_event b seq rnd phase etype actor target visibility summary in
    (done tt, record g { seq = seq; events = g.events ++ e ∷ [] })

abbrev pub new_decision : Board → (n : ℕ) → DecisionRow → (rnd : ℕ) → Option String → DecisionEntry
new_decision b n d rnd request_id = record {
  decision_id = concat (b.game_id ∷ "_d" ∷ show_padded_three n ∷ []);
  actor = d.actor;
  decision_scope = d.scope;
  consensus_id = d.consensus_id;
  phase = d.phase;
  round = rnd;
  action = d.action;
  target = d.target;
  visible_info_refs = d.refs;
  reason_summary = truncate 200 d.reason;
  decision_type = d.dtype;
  request_id = request_id;
}

unfoldable pub decision : Board → DecisionRow → (rnd : ℕ) → Option String → M Unit
decision b d rnd request_id g =
    let n = g.d_counter + 1 in
    (
      done tt,
      record g { d_counter = n; decisions = g.decisions ++ new_decision b n d rnd request_id ∷ [] },
    )

unfoldable pub record_failure :
    (rnd : ℕ) → (phase actor kind reason : String) → Option String → M Unit
record_failure rnd phase actor kind reason target g =
    let row : FailureEntry = record {
      round = rnd;
      phase = phase;
      actor = actor;
      kind = kind;
      reason = reason;
      target = target;
    } in
    (done tt, record g { failures = g.failures ++ row ∷ [] })

unfoldable pub append_turn : TurnRow → M Unit
append_turn t g = (done tt, record g { provider_turns = g.provider_turns ++ t ∷ [] })

update_last : (TurnRow → TurnRow) → List TurnRow → List TurnRow
update_last f [] = []
update_last f (t ∷ []) = f t ∷ []
update_last f (t ∷ u ∷ turns) = t ∷ update_last f (u ∷ turns)

-- the turn that was appended last is the one that its method still holds
unfoldable pub update_turn : (TurnRow → TurnRow) → M Unit
unfolding update_last
update_turn f g = (done tt, record g { provider_turns = update_last f g.provider_turns })

abbrev pub live_success : String
live_success = "live_success"

abbrev pub invalid_fallback : String
invalid_fallback = "invalid_then_fallback"

abbrev pub timeout_fallback : String
timeout_fallback = "timeout_then_fallback"

abbrev pub error_fallback : String
error_fallback = "error_then_fallback"

unfoldable pub fallback_kind_for : String → String
fallback_kind_for kind =
    if elem kind ("timeout" ∷ "transport_error" ∷ "budget_exhausted" ∷ [])
    then timeout_fallback
    else if elem kind ("invalid_action" ∷ "parse_failure" ∷ [])
    then invalid_fallback
    else error_fallback

unfoldable pub downgrade_turn : String → M Unit
unfolding update_turn
downgrade_turn reason =
    update_turn (λ t. record t { kind = invalid_fallback; fallback_reason = some reason })

nth : ℕ → List String → Option String
nth i [] = none
nth zero (x ∷ xs) = some x
nth (suc i) (x ∷ xs) = nth i xs

-- `_draw`: both kinds of pick take one random index
unfoldable pub draw_from : World → List String → M String
unfolding nth
draw_from world over g =
    let i = world.draw g.draws (length over) in
    lift (or_raise (index_error "draw") (nth i over)) (record g { draws = g.draws + 1 })

-- the player's entry; `_players_by_id[pid]`
unfoldable pub player_of : Board → String → M Player
player_of b pid = lift (or_raise (key_error pid) (find (λ p. p.player_id == pid) b.players))

unfoldable pub alive_in_seat_order : Board → Game → List String
alive_in_seat_order b g = filter (λ pid. elem pid g.alive) (map (λ p. p.player_id) b.players)

-- the ids of the living players that pass a test
unfoldable pub living : Board → (Player → Bool) → Game → List String
living b p g = map (λ q. q.player_id) (filter (λ q. elem q.player_id g.alive && p q) b.players)

unfoldable pub runtime_state : Board → Game → RuntimeState
runtime_state b g = record {
  alive = g.alive;
  roles = map (λ p. (p.player_id, p.role)) b.players;
  night_victim = none;
  last_guarded_target = g.last_guarded;
  teams = some (map (λ p. (p.player_id, p.team)) b.players);
}

-- `self._alive.discard(pid)`
unfoldable pub discard : String → M Unit
discard pid g = (done tt, record g { alive = filter (λ p. not (p == pid)) g.alive })

commit_answer : String → Option (List String) → M Unit
commit_answer pid none = halt (double_death_commit pid)
commit_answer pid (some committed) = modify (λ g. record g { death_committed = committed })

-- assert_death_commit_once(pid, self._death_committed)
unfoldable pub commit_death : String → M Unit
unfolding commit_answer
commit_death pid g = commit_answer pid (assert_death_commit_once pid g.death_committed) g
