-- ===== src/Engine/Cascade.antt =====
-- The methods under _trigger_on_death of emergent_engine.py, and the fuel of a cascade of shots.
pub mod Enough
use werewolf_agent.Engine.Exec.{
  Answer, budget_exhausted, continue, done, double_death_commit, gets, halt, leak, lift,
  out_of_fuel, pure, raised, stop, ◌>>=◌,
}
use werewolf_agent.Engine.Hunter.{check_shot, commit_shot, refuse_shot, resolve_hunter_shot}
use werewolf_agent.Engine.Provider.{guard_answer, guard_prompt}
use werewolf_agent.Engine.State.{
  Board, Game, Json, M, ProviderReply, World, append_turn, charge, decision, downgrade_turn, emit,
  object, parse_error, player_of, record_failure, respond_error, update_turn,
}
use werewolf_agent.Engine.Witch.{ask_provider, read_reply}
use werewolf_agent.Log.{TurnRow}
use werewolf_agent.Prelude.{
  Bool, Bool-cases, List, Option, String, false, if◌then◌else◌, inl, inr, length, ltb, none, refl,
  some, true, ℕ, ◌+◌, ◌≡◌, ◌≤◌,
}
use werewolf_agent.Prelude.Result.{Result, err, ok}
use werewolf_agent.Runtime.Envelope.{target}
use werewolf_agent.Runtime.Turn.{DecisionRow}
use werewolf_agent.Visibility.Guard.{Leak}

unfoldable pub is_out_of_fuel : {A : Type 0} → Answer A → Bool
is_out_of_fuel (stop out_of_fuel) = true
is_out_of_fuel _ = false

-- from a state with at most `n` living players, `m` does not run out of fuel, and leaves at most `n`
pub record Within {A : Type 0} (n : ℕ) (m : M A) : Type 0 where
  pub at :
      (g : Game)
      → length g.alive ≤ n
      → (is_out_of_fuel (m g).0 ≡ false) × (length (m g).1.alive ≤ n)

module _ {n : ℕ} where
  pub Within-pure : {A : Type 0} (a : A) → Within n (pure a)
  unfolding pure is_out_of_fuel
  Within-pure a = record { at = λ g h. (refl, h) }

  pub Within-lift : {A : Type 0} (r : Result A) → Within n (lift r)
  unfolding lift is_out_of_fuel
  Within-lift (ok a) = record { at = λ g h. (refl, h) }
  Within-lift (err e) = record { at = λ g h. (refl, h) }

  pub Within-gets : {A : Type 0} (f : Game → A) → Within n (gets f)
  unfolding gets is_out_of_fuel
  Within-gets f = record { at = λ g h. (refl, h) }

  pub Within-if :
      {A : Type 0} (c : Bool) (m k : M A) → Within n m → Within n k → Within n (if c then m else k)
  Within-if true m k hm hk = hm
  Within-if false m k hm hk = hk

  Within-continue :
      {A B : Type 0} (r : Answer A) (f : A → M B) (g : Game)
      → ((a : A) → Within n (f a))
      → is_out_of_fuel r ≡ false
      → length g.alive ≤ n
      → (is_out_of_fuel (continue r f g).0 ≡ false) × (length (continue r f g).1.alive ≤ n)
  unfolding is_out_of_fuel
  Within-continue (done a) f g hf e l = (hf a).at g l
  Within-continue (stop (budget_exhausted u v)) f g hf e l = (refl, l)
  Within-continue (stop (double_death_commit p)) f g hf e l = (refl, l)
  Within-continue (stop (leak p)) f g hf e l = (refl, l)
  Within-continue (stop (raised p)) f g hf e l = (refl, l)
  Within-continue (stop out_of_fuel) f g hf e l = cc

  pub Within-bind :
      {A B : Type 0} (m : M A) (f : A → M B)
      → Within n m
      → ((a : A) → Within n (f a))
      → Within n (m >>= f)
  unfolding ◌>>=◌
  Within-bind m f hm hf = record {
    at = λ g l. let (e, k) = hm.at g l in Within-continue (m g).0 f (m g).1 hf e k;
  }

  pub charge-Within : (b : Board) → Within n (charge b)
  unfolding charge is_out_of_fuel
  charge-Within b = record {
    at = λ g l. elim (Bool-cases (ltb b.max_requests (g.used + 1))) [
      | inl e ↦ rw e (refl, l)
      | inr e ↦ rw e (refl, l)
    ];
  }

  pub emit-Within :
      (b : Board) (phase : String) (rnd : ℕ) (etype actor target visibility summary : String)
      → Within n (emit b phase rnd etype actor target visibility summary)
  unfolding emit is_out_of_fuel
  emit-Within b phase rnd etype actor target visibility summary = record { at = λ g l. (refl, l) }

  pub decision-Within :
      (b : Board) (d : DecisionRow) (rnd : ℕ) (request_id : Option String)
      → Within n (decision b d rnd request_id)
  unfolding decision is_out_of_fuel
  decision-Within b d rnd request_id = record { at = λ g l. (refl, l) }

  pub record_failure-Within :
      (rnd : ℕ) (phase actor kind reason : String) (target : Option String)
      → Within n (record_failure rnd phase actor kind reason target)
  unfolding record_failure is_out_of_fuel
  record_failure-Within rnd phase actor kind reason target = record { at = λ g l. (refl, l) }

  pub append_turn-Within : (t : TurnRow) → Within n (append_turn t)
  unfolding append_turn is_out_of_fuel
  append_turn-Within t = record { at = λ g l. (refl, l) }

  pub update_turn-Within : (f : TurnRow → TurnRow) → Within n (update_turn f)
  unfolding update_turn is_out_of_fuel
  update_turn-Within f = record { at = λ g l. (refl, l) }

  pub downgrade_turn-Within : (reason : String) → Within n (downgrade_turn reason)
  unfolding downgrade_turn
  downgrade_turn-Within reason = update_turn-Within _

  guard_answer-Within :
      (fault : Option Leak) (g : Game)
      → length g.alive ≤ n
      → (is_out_of_fuel (guard_answer fault g).0 ≡ false)
        × (length (guard_answer fault g).1.alive ≤ n)
  unfolding guard_answer is_out_of_fuel pure halt
  guard_answer-Within none g l = (refl, l)
  guard_answer-Within (some fault) g l = (refl, l)

  pub guard_prompt-Within :
      (b : Board) (seat : String) (sources : List String) → Within n (guard_prompt b seat sources)
  unfolding guard_prompt
  guard_prompt-Within b seat sources = record { at = λ g l. guard_answer-Within _ g l }

  pub player_of-Within : (b : Board) (pid : String) → Within n (player_of b pid)
  unfolding player_of
  player_of-Within b pid = Within-lift _

  pub ruleset within = (
    Within-pure, Within-lift, Within-gets, Within-if, Within-bind, charge-Within, emit-Within,
    decision-Within, record_failure-Within, append_turn-Within, update_turn-Within,
    downgrade_turn-Within, guard_prompt-Within, player_of-Within,
  )

  ask_provider-Within :
      (world : World) (b : Board) (suffix pid obs_phase turn_phase : String) (rnd : ℕ)
      → Within n (ask_provider world b suffix pid obs_phase turn_phase rnd)
  unfolding ask_provider
  ask_provider-Within world b suffix pid obs_phase turn_phase rnd = search within depth 40 fits 3000

  read_reply-Within :
      (rnd : ℕ) (phase actor who word : String) (reply : ProviderReply)
      → Within n (read_reply rnd phase actor who word reply)
  unfolding read_reply
  read_reply-Within rnd phase actor who word (respond_error kind reason) =
      search within depth 30 fits 3000
  read_reply-Within rnd phase actor who word (parse_error reason) = search within depth 30 fits 3000
  read_reply-Within rnd phase actor who word (object none t) = search within depth 30 fits 3000
  read_reply-Within rnd phase actor who word (object (some name) t) =
      search within depth 30 fits 3000

  refuse_shot-Within :
      (rnd : ℕ) (phase hunter what : String) (shown t : Json)
      → Within n (refuse_shot rnd phase hunter what shown t)
  unfolding refuse_shot
  refuse_shot-Within rnd phase hunter what shown t = search within depth 30 fits 3000

  check_shot-Within :
      (b : Board) (rnd : ℕ) (phase hunter : String) (name t : Json)
      → Within n (check_shot b rnd phase hunter name t)
  unfolding check_shot
  check_shot-Within b rnd phase hunter name t =
      search (within, refuse_shot-Within) depth 30 fits 3000

  commit_shot-Within :
      (b : Board) (rnd : ℕ) (phase hunter request_id : String) (t : Option String)
      → Within n (commit_shot b rnd phase hunter request_id t)
  unfolding commit_shot
  commit_shot-Within b rnd phase hunter request_id none = search within depth 30 fits 3000
  commit_shot-Within b rnd phase hunter request_id (some t) = search within depth 30 fits 3000

  pub resolve_hunter_shot-Within :
      (world : World) (b : Board) (hunter : String) (rnd : ℕ) (phase : String)
      → Within n (resolve_hunter_shot world b hunter rnd phase)
  unfolding resolve_hunter_shot
  resolve_hunter_shot-Within world b hunter rnd phase =
      search (within, ask_provider-Within, read_reply-Within, check_shot-Within, commit_shot-Within)
        depth 30 fits 3000
