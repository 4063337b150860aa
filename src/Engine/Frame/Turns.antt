-- ===== src/Engine/Frame/Turns.antt =====
-- The turns of one actor.
use werewolf_agent.Engine.Exec.Keeps.{Keeps}
use werewolf_agent.Engine.Frame.{IsFrame, basic, draw_from-Keeps, helpers, quiet}
use werewolf_agent.Engine.State.{Board, Game, World, draw_from}
use werewolf_agent.Engine.Turns.{
  accepted_or_raise, act_on, cast_votes, choose_leader, choose_target, commit_plan, note_downgrade,
  note_failure, remember_guarded, run_first_guard, run_first_seer, run_guard, run_seer,
  run_single_turn, run_vote_round,
}
use werewolf_agent.Prelude.{List, Option, String, [], none, refl, some, true, ℕ, ◌∷◌, ◌≡◌}
use werewolf_agent.Runtime.Envelope.{target}
use werewolf_agent.Runtime.Turn.{
  Adjudication, DecisionWindow, EmitPlan, FailureRow, Resolver, RngPick, guard_resolver, render,
  seer_resolver, vote_resolver,
}

quiet-render :
    (r : Resolver) (w : DecisionWindow) (target dtype : String)
    → quiet (render r w target dtype).event.etype ≡ true
unfolding render
quiet-render seer_resolver w target dtype = refl
quiet-render guard_resolver w target dtype = refl
quiet-render vote_resolver w target dtype = refl

module _ (world : World) (b : Board) {R : Game → Game → Type 0} (fr : IsFrame b R) where
  note_failure-Keeps :
      (rnd : ℕ) (phase actor : String) (f : Option FailureRow)
      → Keeps R (note_failure rnd phase actor f)
  unfolding note_failure
  note_failure-Keeps rnd phase actor none = search helpers depth 30 fits 3000
  note_failure-Keeps rnd phase actor (some f) = search helpers depth 30 fits 3000

  note_downgrade-Keeps : (reason : Option String) → Keeps R (note_downgrade reason)
  unfolding note_downgrade
  note_downgrade-Keeps none = search helpers depth 30 fits 3000
  note_downgrade-Keeps (some reason) = search helpers depth 30 fits 3000

  accepted_or_raise-Keeps : (t : Option String) → Keeps R (accepted_or_raise t)
  unfolding accepted_or_raise
  accepted_or_raise-Keeps none = search helpers depth 30 fits 3000
  accepted_or_raise-Keeps (some t) = search helpers depth 30 fits 3000

  choose_target-Keeps : (adj : Adjudication) → Keeps R (choose_target world adj)
  unfolding choose_target
  choose_target-Keeps adj = by_pick adj.rng_pick
    where
      by_pick :
          (p : Option RngPick)
          → Keeps R (elim p [
            | none ↦ accepted_or_raise adj.accepted_target
            | some pick ↦ draw_from world pick.over
          ])
      by_pick none = accepted_or_raise-Keeps adj.accepted_target
      by_pick (some pick) = draw_from-Keeps world b fr pick.over

  commit_plan-Keeps :
      (rnd : ℕ) (request_id : String) (plan : EmitPlan)
      → quiet plan.event.etype ≡ true
      → Keeps R (commit_plan b rnd request_id plan)
  unfolding commit_plan
  commit_plan-Keeps rnd request_id plan h = search helpers depth 30 fits 3000

  ruleset turns = (
    helpers, note_failure-Keeps, note_downgrade-Keeps, choose_target-Keeps, commit_plan-Keeps,
    quiet-render,
  )

  act_on-Keeps :
      (r : Resolver) (w : DecisionWindow) (rnd : ℕ) (request_id : String) (adj : Adjudication)
      → Keeps R (act_on world b r w rnd request_id adj)
  unfolding act_on
  act_on-Keeps r w rnd request_id adj = search turns depth 30 fits 3000

  run_single_turn-Keeps :
      (r : Resolver) (actor role registry_phase emit_phase request_phase : String) (rnd : ℕ)
      (refs : List String)
      → Keeps R
          (run_single_turn world b r actor role registry_phase emit_phase request_phase rnd refs)
  unfolding run_single_turn
  run_single_turn-Keeps r actor role registry_phase emit_phase request_phase rnd refs =
      search (turns, act_on-Keeps) depth 30 fits 3000

  ruleset played = (turns, run_single_turn-Keeps)

  run_first_seer-Keeps :
      (rnd : ℕ) (seers : List String) → Keeps R (run_first_seer world b rnd seers)
  unfolding run_first_seer
  run_first_seer-Keeps rnd [] = search played
  run_first_seer-Keeps rnd (seer ∷ seers) = search played

  pub run_seer-Keeps : (rnd : ℕ) → Keeps R (run_seer world b rnd)
  unfolding run_seer
  run_seer-Keeps rnd = search (basic, run_first_seer-Keeps)

  remember_guarded-Keeps : (t : Option String) → Keeps R (remember_guarded t)
  unfolding remember_guarded
  remember_guarded-Keeps none = search basic
  remember_guarded-Keeps (some t) = search basic

  run_first_guard-Keeps :
      (rnd : ℕ) (guards : List String) → Keeps R (run_first_guard world b rnd guards)
  unfolding run_first_guard
  run_first_guard-Keeps rnd [] = search played
  run_first_guard-Keeps rnd (guard ∷ guards) = search (played, remember_guarded-Keeps)

  pub run_guard-Keeps : (rnd : ℕ) → Keeps R (run_guard world b rnd)
  unfolding run_guard
  run_guard-Keeps rnd = search (basic, run_first_guard-Keeps)

  cast_votes-Keeps :
      (rnd : ℕ) (refs voters votes : List String)
      → Keeps R (cast_votes world b rnd refs voters votes)
  unfolding cast_votes
  cast_votes-Keeps rnd refs [] votes = search played
  cast_votes-Keeps rnd refs (voter ∷ voters) votes =
      search (played, cast_votes-Keeps rnd refs voters) depth 30 fits 3000

  choose_leader-Keeps : (tied : List String) → Keeps R (choose_leader world tied)
  unfolding choose_leader
  choose_leader-Keeps [] = search basic
  choose_leader-Keeps (t ∷ []) = search basic
  choose_leader-Keeps (t ∷ u ∷ tied) = search basic

  pub run_vote_round-Keeps : (rnd : ℕ) → Keeps R (run_vote_round world b rnd)
  unfolding run_vote_round
  run_vote_round-Keeps rnd =
      search (basic, cast_votes-Keeps, choose_leader-Keeps) depth 30 fits 3000
