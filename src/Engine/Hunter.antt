-- ===== src/Engine/Hunter.antt =====
-- `_resolve_hunter_shot` and `_trigger_on_death`: the shot of a dying hunter and its cascade.
use werewolf_agent.Engine.Exec.{gets, halt, lift, out_of_fuel, pure, ◌>>=◌, ◌>>◌}
use werewolf_agent.Engine.State.{
  Board, Json, M, World, commit_death, decision, discard, downgrade_turn, emit, player_of,
  record_failure, runtime_state, str, unhashable,
}
use werewolf_agent.Engine.Witch.{ask_provider, json_is, json_target, json_text, read_reply}
use werewolf_agent.Prelude.{
  Bool, List, Option, String, [], concat, elem, false, find, get, if◌then◌else◌, is_empty, none,
  some, string_eq, suc, zero, ℕ, ◌==◌, ◌||◌, ◌∷◌,
}
use werewolf_agent.Prelude.Result.{Result, err, ok, type_error}
use werewolf_agent.Runtime.Abilities.{AbilityDefinition, TargetPredicate, target_rules}
use werewolf_agent.Runtime.Envelope.{target}
use werewolf_agent.Runtime.Registry.{death_trigger_suppressing_causes, on_death_abilities}
use werewolf_agent.Runtime.State.{RuntimeState}
use werewolf_agent.Runtime.Turn.{DecisionRow}

-- the target predicate of `hunter_shoot`
abbrev shoot_rule : List AbilityDefinition → Option TargetPredicate
shoot_rule abilities = elim (find (λ a. a.action_id == "hunter_shoot") abilities) [
  | none ↦ none
  | some a ↦ get target_rules a.target_rule
]

-- `pred is not None and target is not None and pred(state, hunter, target)`; each rule that a board
-- gives to the shot asks first whether the target is alive
abbrev shot_legal : Option TargetPredicate → RuntimeState → String → Json → Result Bool
shot_legal none state hunter target = ok false
shot_legal (some pred) state hunter (str t) = ok (pred state hunter t)
shot_legal (some pred) state hunter (unhashable t) = err (type_error "unhashable type")
shot_legal (some pred) state hunter _ = ok false

unfoldable pub refuse_shot :
    (rnd : ℕ) → (phase hunter what : String) → Json → Json → M (Option String)
unfolding record_failure downgrade_turn
refuse_shot rnd phase hunter what shown target = do
  let text = concat (what ∷ json_text shown ∷ [])
  record_failure rnd phase hunter "invalid_action" (concat (hunter ∷ " " ∷ text ∷ []))
      (json_target target)
  downgrade_turn text
  pure none

unfoldable pub check_shot :
    Board → (rnd : ℕ) → (phase hunter : String) → (name target : Json) → M (Option String)
unfolding refuse_shot
check_shot b rnd phase hunter name target =
    if json_is "hunter_shoot" name
    then (do
      abilities ← lift (on_death_abilities b.rules "hunter")
      state ← gets (runtime_state b)
      legal ← lift (shot_legal (shoot_rule abilities) state hunter target)
      if legal
          then pure (some (json_text target))
          else refuse_shot rnd phase hunter "invalid hunter_shoot " target target)
    else if json_is "hunter_pass" name
    then pure none
    else refuse_shot rnd phase hunter "unknown hunter action " name target

shot_decision : (hunter phase action target dtype reason : String) → DecisionRow
shot_decision hunter phase action target dtype reason = record {
  actor = hunter;
  scope = "single";
  phase = phase;
  action = action;
  target = some target;
  dtype = dtype;
  reason = reason;
  refs = [];
  consensus_id = none;
}

unfoldable pub commit_shot :
    Board → (rnd : ℕ) → (phase hunter request_id : String) → Option String → M (Option String)
unfolding shot_decision decision emit
commit_shot b rnd phase hunter request_id (some target) = do
  decision b
      (shot_decision hunter phase "hunter_shoot" target "retaliatory"
        (concat ("hunter " ∷ hunter ∷ " shoots " ∷ target ∷ [])))
      rnd (some request_id)
  emit b phase rnd "hunter_shoot" hunter target "public"
      (concat ("Hunter " ∷ hunter ∷ " shoots " ∷ target ∷ "." ∷ []))
  pure (some target)
commit_shot b rnd phase hunter request_id none = do
  decision b
      (shot_decision hunter phase "hunter_pass" "none" "default"
        (concat (hunter ∷ " does not shoot" ∷ [])))
      rnd (some request_id)
  emit b phase rnd "hunter_pass" hunter "none" "public"
      (concat ("Hunter " ∷ hunter ∷ " does not shoot." ∷ []))
  pure none

unfoldable pub resolve_hunter_shot :
    World → Board → (hunter : String) → (rnd : ℕ) → (phase : String) → M (Option String)
unfolding ask_provider read_reply check_shot commit_shot
resolve_hunter_shot world b hunter rnd phase = do
  (reply, request_id) ← ask_provider world b "_shot" hunter phase phase rnd
  (name, target) ← read_reply rnd phase hunter "hunter" "hunter_pass" reply
  shot ← check_shot b rnd phase hunter name target
  commit_shot b rnd phase hunter request_id shot

-- `self._alive.discard`, the commit of the death and its event
unfoldable pub kill : Board → (phase : String) → (rnd : ℕ) → (etype pid summary : String) → M Unit
unfolding discard commit_death emit
kill b phase rnd etype pid summary = do
  discard pid
  commit_death pid
  emit b phase rnd etype "system" pid "all" summary

-- the shot on a living target kills it, and its own death triggers follow
unfoldable pub take_shot :
    Board
    → (dead : String) → (rnd : ℕ) → (phase : String) → (cascade : String → M Unit) → Option String
    → M Unit
unfolding kill
take_shot b dead rnd phase cascade none = pure tt
take_shot b dead rnd phase cascade (some t) = do
  alive ← gets (λ g. g.alive)
  if elem t alive
      then (do
        kill b phase rnd "player_died" t (concat (t ∷ " was shot by " ∷ dead ∷ "." ∷ []))
        cascade t)
      else pure tt

-- The death cascade, with fuel for the shots; each shot kills a living player.
unfoldable pub trigger_on_death :
    World → Board → ℕ → (dead : String) → (rnd : ℕ) → (phase cause : String) → M Unit
unfolding resolve_hunter_shot take_shot player_of
trigger_on_death world b zero dead rnd phase cause = halt out_of_fuel
trigger_on_death world b (suc fuel) dead rnd phase cause = do
  p ← player_of b dead
  abilities ← lift (on_death_abilities b.rules p.role)
  suppressing ← lift (death_trigger_suppressing_causes b.rules p.role)
  if is_empty abilities || elem cause suppressing then pure tt else do
    target ← resolve_hunter_shot world b dead rnd phase
    take_shot b dead rnd phase (λ t. trigger_on_death world b fuel t rnd phase "hunter_shoot")
        target
