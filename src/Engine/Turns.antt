-- ===== src/Engine/Turns.antt =====
-- `_run_single_turn` and the turns that it drives: seer, guard and voters.
use werewolf_agent.Engine.Exec.{done, gets, halt, lift, pure, raised, ◌>>=◌, ◌>>◌}
use werewolf_agent.Engine.Provider.{live_action, note_error, provider_action}
use werewolf_agent.Engine.State.{
  Board, Game, M, World, alive_in_seat_order, decision, downgrade_turn, draw_from, emit, living,
  player_of, record_failure, runtime_state,
}
use werewolf_agent.Log.{Player}
use werewolf_agent.Prelude.{
  Bool, List, Option, String, [], if◌then◌else◌, none, some, string_eq, ℕ, ◌++◌, ◌==◌, ◌∷◌,
}
use werewolf_agent.Prelude.Result.{type_error}
use werewolf_agent.Runtime.Envelope.{target}
use werewolf_agent.Runtime.Tally.{leaders, tally}
use werewolf_agent.Runtime.Turn.{
  Adjudication, AgentAction, DecisionWindow, EmitPlan, FailureRow, Resolver, adjudicate,
  guard_resolver, render, seer_resolver, vote_resolver,
}
use werewolf_agent.Visibility.Engine.{public_refs}

unfoldable pub decision_window :
    Board
    → (rnd : ℕ) → (actor role registry_phase emit_phase : String) → Option AgentAction
    → List String
    → Game
    → DecisionWindow
decision_window b rnd actor role registry_phase emit_phase live refs g = record {
  rnd = rnd;
  actor = actor;
  role = role;
  emit_phase = emit_phase;
  registry_phase = registry_phase;
  alive_seat_order = alive_in_seat_order b g;
  public_refs = refs;
  live_action = live;
  validator = b.rules;
  runtime_state = runtime_state b g;
}

unfoldable pub note_failure : (rnd : ℕ) → (phase actor : String) → Option FailureRow → M Unit
note_failure rnd phase actor none = pure tt
note_failure rnd phase actor (some f) = record_failure rnd phase actor f.kind f.reason f.target

unfoldable pub note_downgrade : Option String → M Unit
note_downgrade none = pure tt
note_downgrade (some reason) = downgrade_turn reason

-- the accepted target, or a draw; one of the two is there
unfoldable pub accepted_or_raise : Option String → M String
accepted_or_raise none = halt (raised (type_error "target"))
accepted_or_raise (some t) = pure t

unfoldable pub choose_target : World → Adjudication → M String
unfolding accepted_or_raise draw_from
choose_target world adj = elim adj.rng_pick [
  | none ↦ accepted_or_raise adj.accepted_target
  | some pick ↦ draw_from world pick.over
]

-- the row of the decision and the event
unfoldable pub commit_plan : Board → (rnd : ℕ) → String → EmitPlan → M Unit
unfolding decision emit
commit_plan b rnd request_id plan = do
  decision b plan.decision rnd (some request_id)
  let e = plan.event
  emit b e.phase rnd e.etype e.actor e.target e.visibility e.summary

-- what the engine does with a verdict that is no skip
unfoldable pub act_on :
    World
    → Board
    → Resolver
    → DecisionWindow
    → (rnd : ℕ) → String
    → Adjudication
    → M (Option String)
unfolding note_failure note_downgrade choose_target commit_plan record_failure downgrade_turn
act_on world b r w rnd request_id adj = do
  note_failure rnd w.emit_phase w.actor adj.failure
  note_downgrade adj.downgrade_reason
  target ← choose_target world adj
  commit_plan b rnd request_id (render r w target adj.decision_type)
  pure (some target)

unfoldable pub run_single_turn :
    World
    → Board
    → Resolver
    → (actor role registry_phase emit_phase request_phase : String) → (rnd : ℕ) → List String
    → M (Option String)
unfolding provider_action note_error decision_window act_on
run_single_turn world b r actor role registry_phase emit_phase request_phase rnd refs = do
  (reply, request_id) ← provider_action world b actor request_phase rnd
  note_error rnd emit_phase actor reply
  w ← gets (decision_window b rnd actor role registry_phase emit_phase (live_action reply) refs)
  adj ← lift (adjudicate r w)
  if adj.skip then pure none else act_on world b r w rnd request_id adj

has_role : String → Player → Bool
has_role role p = p.role == role

unfoldable pub run_first_seer : World → Board → (rnd : ℕ) → List String → M (Option String)
unfolding run_single_turn
run_first_seer world b rnd [] = pure none
run_first_seer world b rnd (seer ∷ seers) =
    run_single_turn world b seer_resolver seer "seer" "night" "night" "night" rnd []

unfoldable pub run_seer : World → Board → (rnd : ℕ) → M (Option String)
unfolding run_first_seer has_role living
run_seer world b rnd = do
  seers ← gets (living b (has_role "seer"))
  run_first_seer world b rnd seers

unfoldable pub set_last_guarded : String → M Unit
set_last_guarded t g = (done tt, record g { last_guarded = some t })

-- the effective target, drawn ones included, bars the next night
unfoldable pub remember_guarded : Option String → M (Option String)
unfolding set_last_guarded
remember_guarded none = pure none
remember_guarded (some t) = do set_last_guarded t; pure (some t)

unfoldable pub run_first_guard : World → Board → (rnd : ℕ) → List String → M (Option String)
unfolding run_single_turn remember_guarded
run_first_guard world b rnd [] = pure none
run_first_guard world b rnd (guard ∷ guards) = do
  target ← run_single_turn world b guard_resolver guard "guard" "night" "night" "night" rnd []
  remember_guarded target

unfoldable pub run_guard : World → Board → (rnd : ℕ) → M (Option String)
unfolding run_first_guard has_role living
run_guard world b rnd = do
  guards ← gets (living b (has_role "guard"))
  run_first_guard world b rnd guards

add_vote : Option String → List String → List String
add_vote none votes = votes
add_vote (some t) votes = votes ++ t ∷ []

-- the loop over the voters; it gives the votes that were cast, in order
unfoldable pub cast_votes :
    World → Board → (rnd : ℕ) → List String → (voters votes : List String) → M (List String)
unfolding run_single_turn add_vote player_of
cast_votes world b rnd refs [] votes = pure votes
cast_votes world b rnd refs (voter ∷ voters) votes = do
  p ← player_of b voter
  target ← run_single_turn world b vote_resolver voter p.role "day_vote" "day" "day" rnd refs
  cast_votes world b rnd refs voters (add_vote target votes)

-- the one leader, or a draw among several
unfoldable pub choose_leader : World → List String → M (Option String)
unfolding draw_from
choose_leader world [] = pure none
choose_leader world (t ∷ []) = pure (some t)
choose_leader world (t ∷ u ∷ tied) = do chosen ← draw_from world (t ∷ u ∷ tied); pure (some chosen)

unfoldable pub run_vote_round : World → Board → (rnd : ℕ) → M (Option String)
unfolding cast_votes choose_leader alive_in_seat_order
run_vote_round world b rnd = do
  refs ← gets (λ g. public_refs g.events)
  voters ← gets (alive_in_seat_order b)
  votes ← cast_votes world b rnd refs voters []
  choose_leader world (leaders (tally votes))
