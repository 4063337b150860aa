-- ===== src/Engine/Frame/Play.antt =====
-- The death cascade, the night, the day and the whole game.
use werewolf_agent.Engine.Day.{eliminate, resolve_speech, run_day, speeches}
use werewolf_agent.Engine.Exec.{
  Answer, budget_exhausted, done, double_death_commit, leak, out_of_fuel, raised, stop,
}
use werewolf_agent.Engine.Exec.Keeps.{Keeps}
use werewolf_agent.Engine.Frame.{IsFrame, basic, bind-Keeps, helpers}
use werewolf_agent.Engine.Frame.Powers.{
  resolve_hunter_shot-Keeps, resolve_witch-Keeps, run_wolf_kill-Keeps,
}
use werewolf_agent.Engine.Frame.Turns.{run_guard-Keeps, run_seer-Keeps, run_vote_round-Keeps}
use werewolf_agent.Engine.Hunter.{take_shot, trigger_on_death}
use werewolf_agent.Engine.Night.{
  NightTargets, apply_death, apply_deaths, dispatch, dispatch_one, run_night,
}
use werewolf_agent.Engine.Run.{
  GameOutcome, Team, catch_budget, decided, failed_outcome, finish, rounds, run, run_inner,
}
use werewolf_agent.Engine.State.{Board, Game, M, World}
use werewolf_agent.Prelude.{
  Bool, List, Option, String, [], none, some, string_eq, suc, zero, ℕ, ◌∷◌,
}
use werewolf_agent.Runtime.Settler.{NightResult}

module _ (world : World) (b : Board) {R : Game → Game → Type 0} (fr : IsFrame b R) where
  take_shot-Keeps :
      (dead : String) (rnd : ℕ) (phase : String) (cascade : String → M Unit)
      (target : Option String)
      → ((t : String) → Keeps R (cascade t))
      → Keeps R (take_shot b dead rnd phase cascade target)
  unfolding take_shot
  take_shot-Keeps dead rnd phase cascade none h = search basic
  take_shot-Keeps dead rnd phase cascade (some t) h = search basic depth 30 fits 3000

  trigger_on_death-Keeps :
      (fuel : ℕ) (dead : String) (rnd : ℕ) (phase cause : String)
      → Keeps R (trigger_on_death world b fuel dead rnd phase cause)
  unfolding trigger_on_death
  trigger_on_death-Keeps zero dead rnd phase cause = search basic
  trigger_on_death-Keeps (suc fuel) dead rnd phase cause =
      let cascade-Keeps : (t : String)
          → Keeps R (trigger_on_death world b fuel t rnd phase "hunter_shoot") =
        λ t. trigger_on_death-Keeps fuel t rnd phase "hunter_shoot" in
      search (helpers, resolve_hunter_shot-Keeps, take_shot-Keeps, cascade-Keeps) depth 30 fits 3000

  dispatch_one-Keeps :
      (rnd : ℕ) (ability_id : String) (targets : NightTargets)
      → Keeps R (dispatch_one world b rnd ability_id targets)
  unfolding dispatch_one
  dispatch_one-Keeps rnd ability_id targets =
      search (basic, run_guard-Keeps, run_wolf_kill-Keeps, run_seer-Keeps) depth 30 fits 3000

  dispatch-Keeps :
      (rnd : ℕ) (order : List String) (targets : NightTargets)
      → Keeps R (dispatch world b rnd order targets)
  unfolding dispatch
  dispatch-Keeps rnd [] targets = search basic
  dispatch-Keeps rnd (ability_id ∷ order) targets =
      search (basic, dispatch_one-Keeps, dispatch-Keeps rnd order) depth 30 fits 3000

  apply_death-Keeps :
      (rnd : ℕ) (result : NightResult) (pid : String) → Keeps R (apply_death world b rnd result pid)
  unfolding apply_death
  apply_death-Keeps rnd result pid = search (basic, trigger_on_death-Keeps) depth 30 fits 3000

  apply_deaths-Keeps :
      (rnd : ℕ) (result : NightResult) (deaths : List String)
      → Keeps R (apply_deaths world b rnd result deaths)
  unfolding apply_deaths
  apply_deaths-Keeps rnd result [] = search basic
  apply_deaths-Keeps rnd result (pid ∷ deaths) =
      bind-Keeps world b fr (apply_death world b rnd result pid)
        (λ _. apply_deaths world b rnd result deaths) (apply_death-Keeps rnd result pid)
        (λ _. apply_deaths-Keeps rnd result deaths)

  run_night-Keeps :
      (rnd : ℕ) (save_used poison_used : Bool)
      → Keeps R (run_night world b rnd save_used poison_used)
  unfolding run_night
  run_night-Keeps rnd save_used poison_used =
      search (basic, dispatch-Keeps, resolve_witch-Keeps, apply_deaths-Keeps) depth 30 fits 3000

  resolve_speech-Keeps : (pid : String) (rnd : ℕ) → Keeps R (resolve_speech world b pid rnd)
  unfolding resolve_speech
  resolve_speech-Keeps pid rnd = search helpers depth 40 fits 3000

  speeches-Keeps : (rnd : ℕ) (speakers : List String) → Keeps R (speeches world b rnd speakers)
  unfolding speeches
  speeches-Keeps rnd [] = search basic
  speeches-Keeps rnd (pid ∷ speakers) =
      bind-Keeps world b fr (resolve_speech world b pid rnd) (λ _. speeches world b rnd speakers)
        (resolve_speech-Keeps pid rnd) (λ _. speeches-Keeps rnd speakers)

  eliminate-Keeps : (rnd : ℕ) (target : Option String) → Keeps R (eliminate world b rnd target)
  unfolding eliminate
  eliminate-Keeps rnd none = search basic
  eliminate-Keeps rnd (some pid) = search (helpers, trigger_on_death-Keeps) depth 30 fits 3000

  run_day-Keeps : (rnd : ℕ) (deaths : List String) → Keeps R (run_day world b rnd deaths)
  unfolding run_day
  run_day-Keeps rnd deaths =
      search (basic, speeches-Keeps, run_vote_round-Keeps, eliminate-Keeps) depth 30 fits 3000

  finish-Keeps : (rnd : ℕ) (winner : Team) → Keeps R (finish b rnd winner)
  unfolding finish
  finish-Keeps rnd winner = search basic depth 30 fits 3000

  failed_outcome-Keeps :
      (end_condition reason : String) → Keeps R (failed_outcome end_condition reason)
  unfolding failed_outcome
  failed_outcome-Keeps end_condition reason = search basic depth 30 fits 3000

  decided-Keeps :
      (rnd : ℕ) (winner : Option Team) (rest : M GameOutcome)
      → Keeps R rest
      → Keeps R (decided b rnd winner rest)
  unfolding decided
  decided-Keeps rnd none rest h = h
  decided-Keeps rnd (some winner) rest h = finish-Keeps rnd winner

  rounds-Keeps :
      (left rnd : ℕ) (save_used poison_used : Bool)
      → Keeps R (rounds world b left rnd save_used poison_used)
  unfolding rounds
  rounds-Keeps zero rnd save_used poison_used = search failed_outcome-Keeps
  rounds-Keeps (suc left) rnd save_used poison_used =
      search (basic, run_night-Keeps, run_day-Keeps, decided-Keeps, rounds-Keeps left) depth 30 fits
        3000

  run_inner-Keeps : Keeps R (run_inner world b)
  unfolding run_inner
  run_inner-Keeps = search (basic, rounds-Keeps) depth 30 fits 3000

  catch_budget-Keeps : (answer : Answer GameOutcome) → Keeps R (catch_budget answer)
  unfolding catch_budget
  catch_budget-Keeps (done outcome) = search basic
  catch_budget-Keeps (stop (budget_exhausted used limit)) = search failed_outcome-Keeps
  catch_budget-Keeps (stop (double_death_commit pid)) = search basic
  catch_budget-Keeps (stop (leak fault)) = search basic
  catch_budget-Keeps (stop (raised e)) = search basic
  catch_budget-Keeps (stop out_of_fuel) = search basic

  -- Every relation between two states that holds of the same state twice, that can be chained, and
  -- that each primitive change of the engine respects, holds between the states before and after a
  -- game, however the game ends.
  pub run-Keeps : (g : Game) → R g (run world b g).1
  unfolding run
  run-Keeps g =
      let (answer, g') = run_inner world b g in
      fr.join g g' (catch_budget answer g').1 (run_inner-Keeps.at g)
        ((catch_budget-Keeps answer).at g')
