-- ===== src/Engine/Witch.antt =====
-- `_resolve_witch`: the potions of the night.
pub mod Potions
use werewolf_agent.Engine.Exec.{gets, lift, pure, ◌>>=◌, ◌>>◌}
use werewolf_agent.Engine.Provider.{build_obs, guard_prompt, new_turn}
use werewolf_agent.Engine.State.{
  Board, Json, M, ProviderReply, World, append_turn, charge, decision, downgrade_turn, emit,
  fallback_kind_for, live_success, living, null, object, parse_error, player_of, record_failure,
  respond_error, scalar, str, unhashable, update_turn,
}
use werewolf_agent.Prelude.{
  Bool, List, Option, String, [], concat, elem, eqb, false, if◌then◌else◌, none, not, some,
  string_eq, true, ℕ, ◌&&◌, ◌==◌, ◌||◌, ◌∷◌,
}
use werewolf_agent.Prelude.Result.{Result, err, ok, type_error}
use werewolf_agent.Runtime.Envelope.{target}
use werewolf_agent.Runtime.Turn.{DecisionRow}

-- (saved, poison_target, save_used, poison_used)
pub record WitchResult : Type 0 where
  pub saved : Bool
  pub poison_target : Option String
  pub save_used : Bool
  pub poison_used : Bool

-- a value against a text
abbrev pub json_is : String → Json → Bool
json_is t (str s) = s == t
json_is t _ = false

-- `value in self._alive`: a list or an object has no hash
abbrev pub json_in : Json → List String → Result Bool
json_in (str s) alive = ok (elem s alive)
json_in (unhashable s) alive = err (type_error "unhashable type")
json_in _ alive = ok false

-- `None` and the values that are no texts, as they are printed
abbrev pub json_text : Json → String
json_text null = "None"
json_text (str s) = s
json_text (scalar s) = s
json_text (unhashable s) = s

abbrev pub json_target : Json → Option String
json_target null = none
json_target j = some (json_text j)

abbrev or_null : Option Json → Json
or_null none = null
or_null (some j) = j

-- The action and the target that the reply names; every other reply counts as a pass. `who` is the
-- word in the messages, and `pass` the action of passing.
unfoldable pub read_reply :
    (rnd : ℕ) → (phase actor who pass : String) → ProviderReply → M (Json × Json)
unfolding record_failure update_turn downgrade_turn
read_reply rnd phase actor who pass (respond_error kind reason) = do
  let text = concat (who ∷ " provider error: " ∷ reason ∷ [])
  record_failure rnd phase actor kind (concat (actor ∷ " " ∷ text ∷ [])) none
  update_turn (λ t. record t { kind = fallback_kind_for kind; fallback_reason = some text })
  pure (str pass, null)
read_reply rnd phase actor who pass (parse_error reason) = do
  let text = concat (who ∷ " parse failed: " ∷ reason ∷ [])
  record_failure rnd phase actor "parse_failure" (concat (actor ∷ " " ∷ text ∷ [])) none
  downgrade_turn text
  pure (str pass, null)
read_reply rnd phase actor who pass (object none target) = do
  let text = concat (actor ∷ " " ∷ who ∷ " missing action key" ∷ [])
  record_failure rnd phase actor "parse_failure" text none
  downgrade_turn text
  pure (str pass, null)
read_reply rnd phase actor who pass (object (some name) target) = do
  update_turn (λ t. record t { kind = live_success })
  pure (name, or_null target)

pub data Potion : Type 0 where
  save pass : Potion
  poison : String → Potion

-- a parsed but illegal use is downgraded to a pass
unfoldable pub refuse : (rnd : ℕ) → (witch reason : String) → Option String → M Potion
unfolding record_failure downgrade_turn
refuse rnd witch reason target = do
  record_failure rnd "night" witch "invalid_action" (concat (witch ∷ " " ∷ reason ∷ [])) target
  downgrade_turn reason
  pure pass

unfoldable pub check_save :
    (rnd : ℕ) → (witch : String) → Option String → (save_used : Bool) → Json → M Potion
unfolding refuse
check_save rnd witch none save_used target =
    if json_is witch target && not (eqb rnd 1)
    then refuse rnd witch "witch self-save only allowed on the first night" (json_target target)
    else refuse rnd witch (concat ("invalid witch_save target=" ∷ json_text target ∷ []))
        (json_target target)
check_save rnd witch (some victim) save_used target =
    let self_save_late = json_is witch target && not (eqb rnd 1) in
    if save_used || not (json_is victim target) || self_save_late
    then (if self_save_late
        then refuse rnd witch "witch self-save only allowed on the first night" (json_target target)
        else refuse rnd witch (concat ("invalid witch_save target=" ∷ json_text target ∷ []))
            (json_target target))
    else pure save

unfoldable pub refuse_poison : (rnd : ℕ) → (witch : String) → Json → M Potion
unfolding refuse
refuse_poison rnd witch target =
    refuse rnd witch (concat ("invalid witch_poison target=" ∷ json_text target ∷ []))
      (json_target target)

unfoldable pub check_poison : (rnd : ℕ) → (witch : String) → (poison_used : Bool) → Json → M Potion
unfolding refuse_poison
check_poison rnd witch true target = refuse_poison rnd witch target
check_poison rnd witch false target = do
  alive ← gets (λ g. g.alive)
  is_alive ← lift (json_in target alive)
  if not is_alive || json_is witch target
      then refuse_poison rnd witch target
      else pure (poison (json_text target))

unfoldable pub check_potion :
    (rnd : ℕ)
    → (witch : String) → Option String
    → (save_used poison_used : Bool) → (name target : Json) → M Potion
unfolding check_save check_poison refuse
check_potion rnd witch victim save_used poison_used name target =
    if json_is "witch_save" name
    then check_save rnd witch victim save_used target
    else if json_is "witch_poison" name
    then check_poison rnd witch poison_used target
    else if json_is "witch_pass" name
    then pure pass
    else refuse rnd witch (concat ("unknown witch action " ∷ json_text name ∷ [])) none

witch_decision : (witch action : String) → (target : String) → (dtype reason : String) → DecisionRow
witch_decision witch action target dtype reason = record {
  actor = witch;
  scope = "single";
  phase = "night";
  action = action;
  target = some target;
  dtype = dtype;
  reason = reason;
  refs = [];
  consensus_id = none;
}

abbrev victim_text : Option String → String
victim_text none = "None"
victim_text (some v) = v

unfoldable pub use_potion :
    Board
    → (rnd : ℕ) → (witch : String) → Option String
    → (save_used poison_used : Bool) → (request_id : String) → Potion
    → M WitchResult
unfolding witch_decision decision emit
use_potion b rnd witch victim save_used poison_used request_id save = do
  let v = victim_text victim
  decision b
      (witch_decision witch "witch_save" v "inference_based" (concat ("witch saves " ∷ v ∷ []))) rnd
      (some request_id)
  emit b "night" rnd "witch_save" witch v "witch"
      (concat ("Witch " ∷ witch ∷ " saves " ∷ v ∷ "." ∷ []))
  pure (record { saved = true; poison_target = none; save_used = true; poison_used = poison_used })
use_potion b rnd witch victim save_used poison_used request_id (poison target) = do
  decision b
      (witch_decision witch "witch_poison" target "retaliatory"
        (concat ("witch poisons " ∷ target ∷ [])))
      rnd (some request_id)
  emit b "night" rnd "witch_poison" witch target "witch"
      (concat ("Witch " ∷ witch ∷ " poisons " ∷ target ∷ "." ∷ []))
  pure (record {
    saved = false;
    poison_target = some target;
    save_used = save_used;
    poison_used = true;
  })
use_potion b rnd witch victim save_used poison_used request_id pass = do
  decision b
      (witch_decision witch "witch_pass" "none" "default" (concat (witch ∷ " uses no potion" ∷ [])))
      rnd (some request_id)
  emit b "night" rnd "witch_pass" witch "none" "witch"
      (concat ("Witch " ∷ witch ∷ " uses no potion." ∷ []))
  pure (record {
    saved = false;
    poison_target = none;
    save_used = save_used;
    poison_used = poison_used;
  })

-- a request whose turn is appended before the guard and the answer
unfoldable pub ask_provider :
    World
    → Board
    → (suffix pid obs_phase turn_phase : String) → (rnd : ℕ) → M (ProviderReply × String)
unfolding charge player_of build_obs guard_prompt new_turn append_turn
ask_provider world b suffix pid obs_phase turn_phase rnd = do
  charge b
  p ← player_of b pid
  obs ← gets (build_obs b p obs_phase rnd)
  sources ← gets (λ g. world.sources obs g.events)
  let turn = new_turn b suffix pid turn_phase "action" rnd sources
  append_turn turn
  guard_prompt b pid sources
  call ← gets (λ g. g.used)
  pure (world.respond call obs, turn.request_id)

unfoldable pub run_witch :
    World
    → Board
    → (rnd : ℕ) → Option String
    → (save_used poison_used : Bool) → List String
    → M WitchResult
unfolding ask_provider read_reply check_potion use_potion
run_witch world b rnd victim save_used poison_used [] = pure (record {
  saved = false;
  poison_target = none;
  save_used = save_used;
  poison_used = poison_used;
})
run_witch world b rnd victim save_used poison_used (witch ∷ witches) = do
  (reply, request_id) ← ask_provider world b "_witch" witch "night" "night" rnd
  (name, target) ← read_reply rnd "night" witch "witch" "witch_pass" reply
  potion ← check_potion rnd witch victim save_used poison_used name target
  use_potion b rnd witch victim save_used poison_used request_id potion

unfoldable pub resolve_witch :
    World → Board → (rnd : ℕ) → Option String → (save_used poison_used : Bool) → M WitchResult
unfolding run_witch living
resolve_witch world b rnd victim save_used poison_used = do
  witches ← gets (living b (λ p. p.role == "witch"))
  run_witch world b rnd victim save_used poison_used witches
