-- ===== src/Engine/Night.antt =====
-- The night of `_run_inner`: the dispatched abilities, the witch, the settlement and the deaths.
use werewolf_agent.Engine.Exec.{gets, halt, lift, pure, raised, ◌>>=◌, ◌>>◌}
use werewolf_agent.Engine.Hunter.{kill, trigger_on_death}
use werewolf_agent.Engine.State.{Board, Game, M, World, runtime_state}
use werewolf_agent.Engine.Turns.{run_guard, run_seer}
use werewolf_agent.Engine.Witch.{resolve_witch}
use werewolf_agent.Engine.Wolves.{run_wolf_kill}
use werewolf_agent.Prelude.{
  Bool, List, Option, String, [], concat, elem, get, if◌then◌else◌, length, none, not, string_eq,
  suc, ℕ, ◌==◌, ◌∷◌,
}
use werewolf_agent.Prelude.Result.{key_error, or_raise}
use werewolf_agent.Runtime.Settler.{NightIntents, NightResult, resolve_night}

-- NIGHT_DISPATCH_ORDER
abbrev pub night_dispatch_order : List String
night_dispatch_order = "guard_protect" ∷ "werewolf_kill" ∷ "seer_check" ∷ []

-- the results that the dispatch loop keeps
pub record NightTargets : Type 0 where
  pub victim : Option String
  pub guard_target : Option String

unfoldable pub dispatch_one : World → Board → (rnd : ℕ) → String → NightTargets → M NightTargets
unfolding run_guard run_wolf_kill run_seer
dispatch_one world b rnd ability_id targets =
    if ability_id == "guard_protect"
    then (do t ← run_guard world b rnd; pure (record targets { guard_target = t }))
    else if ability_id == "werewolf_kill"
    then (do t ← run_wolf_kill world b rnd; pure (record targets { victim = t }))
    else if ability_id == "seer_check"
    then (do run_seer world b rnd; pure targets)
    else halt (raised (key_error ability_id))

unfoldable pub dispatch : World → Board → (rnd : ℕ) → List String → NightTargets → M NightTargets
unfolding dispatch_one
dispatch world b rnd [] targets = pure targets
dispatch world b rnd (ability_id ∷ order) targets = do
  next ← dispatch_one world b rnd ability_id targets
  dispatch world b rnd order next

-- the fuel of a death cascade: one shot for each living player, and the last call
abbrev pub cascade_fuel : Game → ℕ
cascade_fuel g = suc (length g.alive)

-- one death of the night; a hunter's shot may have killed the player before
unfoldable pub apply_death : World → Board → (rnd : ℕ) → NightResult → String → M Unit
unfolding kill trigger_on_death
apply_death world b rnd result pid = do
  alive ← gets (λ g. g.alive)
  if not (elem pid alive) then pure tt else do
    kill b "night" rnd "player_died" pid (concat (pid ∷ " died during the night." ∷ []))
    cause ← lift (or_raise (key_error pid) (get result.death_causes pid))
    fuel ← gets cascade_fuel
    trigger_on_death world b fuel pid rnd "night" cause

unfoldable pub apply_deaths : World → Board → (rnd : ℕ) → NightResult → List String → M Unit
unfolding apply_death
apply_deaths world b rnd result [] = pure tt
apply_deaths world b rnd result (pid ∷ deaths) = do
  apply_death world b rnd result pid
  apply_deaths world b rnd result deaths

-- the potions that the night leaves, and its deaths
pub record NightOutcome : Type 0 where
  pub deaths : List String
  pub save_used : Bool
  pub poison_used : Bool

unfoldable pub run_night :
    World → Board → (rnd : ℕ) → (save_used poison_used : Bool) → M NightOutcome
unfolding dispatch resolve_witch apply_deaths
run_night world b rnd save_used poison_used = do
  targets ←
      dispatch world b rnd night_dispatch_order (record { victim = none; guard_target = none })
  w ← resolve_witch world b rnd targets.victim save_used poison_used
  state ← gets (runtime_state b)
  let intents : NightIntents = record {
    wolf_victim = targets.victim;
    saved = w.saved;
    poison_target = w.poison_target;
    guard_target = targets.guard_target;
  }
  result ← lift (resolve_night b.rules intents state)
  apply_deaths world b rnd result result.deaths
  pure (record { deaths = result.deaths; save_used = w.save_used; poison_used = w.poison_used })
