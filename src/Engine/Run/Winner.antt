-- ===== src/Engine/Run/Winner.antt =====
-- run of emergent_engine.py: the result of a completed game against its final state.
use werewolf_agent.Engine.Day.{run_day}
use werewolf_agent.Engine.Exec.{
  Answer, budget_exhausted, continue, done, double_death_commit, gets, leak, out_of_fuel, raised,
  stop, ◌>>=◌,
}
use werewolf_agent.Engine.Night.{run_night}
use werewolf_agent.Engine.Run.{
  GameOutcome, Team, catch_budget, completed, decided, end_condition_of, failed, failed_outcome,
  finish, rounds, run, run_inner, win_check,
}
use werewolf_agent.Engine.State.{Board, Game, M, World, emit, living, record_failure}
use werewolf_agent.Prelude.{
  Bool, Option, [], elem, false, none, refl, some, sorted, str_leb, string_eq, suc, true, zero, ℕ,
  ◌∷◌, ◌≡◌,
}

-- what an outcome promises of the final state
pub Promises : Board → Answer GameOutcome → Game → Type 0
Promises b (done (completed r)) g =
    (win_check b g ≡ some r.winner)
    × (r.survivors ≡ sorted str_leb g.alive)
    × (r.end_condition ≡ end_condition_of r.winner)
Promises b (done (failed end_condition)) g =
    elem end_condition ("round_cap" ∷ "budget_exhausted" ∷ []) ≡ true
Promises b (stop e) g = Unit

module _ (world : World) (b : Board) where
  Ends : M GameOutcome → Type 0
  Ends m = (g : Game) → Promises b (m g).0 (m g).1

  continue-Ends :
      {A : Type 0} (r : Answer A) (f : A → M GameOutcome) (g : Game)
      → ((a : A) → Ends (f a))
      → Promises b (continue r f g).0 (continue r f g).1
  unfolding Promises Ends
  continue-Ends (done a) f g h = h a g
  continue-Ends (stop e) f g h = tt

  bind-Ends :
      {A : Type 0} (m : M A) (f : A → M GameOutcome) → ((a : A) → Ends (f a)) → Ends (m >>= f)
  unfolding Ends ◌>>=◌
  bind-Ends m f h g = let (r, g') = m g in continue-Ends r f g' h

  finish-Promises :
      (rnd : ℕ) (winner : Team) (g : Game)
      → win_check b g ≡ some winner
      → Promises b (finish b rnd winner g).0 (finish b rnd winner g).1
  unfolding Promises finish emit win_check living ◌>>=◌
  finish-Promises rnd winner g h = (h, refl, refl)

  decided-Ends :
      (rnd : ℕ) (rest : M GameOutcome)
      → Ends rest
      → Ends (gets (win_check b) >>= λ w. decided b rnd w rest)
  unfolding Ends decided ◌>>=◌
  decided-Ends rnd rest h g = by_winner (win_check b g) refl
    where
      by_winner :
          (w : Option Team)
          → win_check b g ≡ w
          → Promises b (decided b rnd w rest g).0 (decided b rnd w rest g).1
      by_winner none e = h g
      by_winner (some winner) e = finish-Promises rnd winner g e

  rounds-Ends :
      (left rnd : ℕ) (save_used poison_used : Bool)
      → Ends (rounds world b left rnd save_used poison_used)
  unfolding rounds failed_outcome record_failure Promises Ends ◌>>=◌
  rounds-Ends zero rnd save_used poison_used = λ g. refl
  rounds-Ends (suc left) rnd save_used poison_used =
      bind-Ends (run_night world b rnd save_used poison_used) _ λ night. decided-Ends rnd _ (
        bind-Ends (run_day world b rnd night.deaths) _
          λ _. decided-Ends rnd _ (rounds-Ends left (suc rnd) night.save_used night.poison_used))

  catch_budget-Ends :
      (answer : Answer GameOutcome) (g : Game)
      → Promises b answer g
      → Promises b (catch_budget answer g).0 (catch_budget answer g).1
  unfolding catch_budget failed_outcome record_failure Promises ◌>>=◌
  catch_budget-Ends (done outcome) g h = h
  catch_budget-Ends (stop (budget_exhausted used limit)) g h = refl
  catch_budget-Ends (stop (double_death_commit pid)) g h = tt
  catch_budget-Ends (stop (leak fault)) g h = tt
  catch_budget-Ends (stop (raised e)) g h = tt
  catch_budget-Ends (stop out_of_fuel) g h = tt

  -- If a game completes, its winner is the one whom the final state gives the win, the survivors are
  -- the sorted living players and the end condition is the winner's; and if it fails, then by the cap
  -- on the rounds or by the budget.
  pub run-Promises : (g : Game) → Promises b (run world b g).0 (run world b g).1
  unfolding run run_inner Ends
  run-Promises g =
      let (answer, g') = run_inner world b g in
      catch_budget-Ends answer g' (
        bind-Ends _ (λ _. rounds world b b.max_day_rounds 1 false false)
          (λ _. rounds-Ends b.max_day_rounds 1 false false) g)
