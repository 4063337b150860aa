-- ===== src/Engine/Cascade/Enough.antt =====
-- The fuel of a cascade of shots: _trigger_on_death of emergent_engine.py.
use werewolf_agent.Engine.Cascade.{Within, is_out_of_fuel, resolve_hunter_shot-Within, within}
use werewolf_agent.Engine.Exec.{◌>>=◌}
use werewolf_agent.Engine.Hunter.{kill, take_shot, trigger_on_death}
use werewolf_agent.Engine.Kill.{kill-again, kill-once}
use werewolf_agent.Engine.Night.{cascade_fuel}
use werewolf_agent.Engine.State.{Board, Game, M, World, emit}
use werewolf_agent.Prelude.{
  Bool-cases, List, Option, String, [], arith, elem, eq_iff, false, filter, inl, inr, length,
  length-filter-le, none, not, refl, some, string_eq, suc, true, zero, ℕ, ◌<◌, ◌==◌, ◌∷◌, ◌≡◌, ◌≤◌,
}

length-filter-lt :
    (pid : String) (xs : List String)
    → elem pid xs ≡ true
    → length (filter (λ p. not (p == pid)) xs) < length xs
length-filter-lt pid [] h = ground arith
length-filter-lt pid (x ∷ xs) h = ground (
  arith,
  length-filter-lt pid xs,
  length-filter-le (λ p. not (p == pid)) xs,
  eq_iff x pid,
  eq_iff pid x,
)

nobody : (t : String) (xs : List String) → length xs ≤ 0 → elem t xs ≡ false
nobody t [] h = refl
nobody t (x ∷ xs) h = ground arith

module _ (world : World) (b : Board) where
  kill_then :
      {n : ℕ} (phase : String) (rnd : ℕ) (etype t summary : String) (cascade : M Unit) (g : Game)
      → Within n cascade
      → length (filter (λ p. not (p == t)) g.alive) ≤ n
      → (is_out_of_fuel ((kill b phase rnd etype t summary >>= λ a. cascade) g).0 ≡ false)
        × (length ((kill b phase rnd etype t summary >>= λ a. cascade) g).1.alive ≤ n)
  unfolding ◌>>=◌ emit is_out_of_fuel
  kill_then phase rnd etype t summary cascade g hc l =
      elim (Bool-cases (elem t g.death_committed)) [
        | inl h ↦ rw (kill-again b phase rnd etype t summary g h) (refl, l)
        | inr h ↦ rw (kill-once b phase rnd etype t summary g h) (hc.at _ l)
      ]

  take_shot-Within :
      {n : ℕ} (dead : String) (rnd : ℕ) (phase : String) (cascade : String → M Unit)
      (target : Option String)
      → ((t : String) → Within n (cascade t))
      → Within (suc n) (take_shot b dead rnd phase cascade target)
  unfolding take_shot ◌>>=◌ is_out_of_fuel
  take_shot-Within dead rnd phase cascade none hc = record { at = λ g l. (refl, l) }
  take_shot-Within dead rnd phase cascade (some t) hc = record {
    at = λ g l. elim (Bool-cases (elem t g.alive)) [
      | inl h ↦
          let (e, k) =
            kill_then phase rnd "player_died" t _ (cascade t) g (hc t)
              (omega (arith, length-filter-lt t g.alive h)) in
          rw h (e, omega arith)
      | inr h ↦ rw h (refl, l)
    ];
  }

  take_shot_last :
      (dead : String) (rnd : ℕ) (phase : String) (cascade : String → M Unit)
      (target : Option String)
      → Within 0 (take_shot b dead rnd phase cascade target)
  unfolding take_shot ◌>>=◌ is_out_of_fuel
  take_shot_last dead rnd phase cascade none = record { at = λ g l. (refl, l) }
  take_shot_last dead rnd phase cascade (some t) = record {
    at = λ g l. rw (nobody t g.alive l) (refl, l);
  }

  trigger_on_death-Within :
      (n : ℕ) (dead : String) (rnd : ℕ) (phase cause : String)
      → Within n (trigger_on_death world b (suc n) dead rnd phase cause)
  unfolding trigger_on_death
  trigger_on_death-Within zero dead rnd phase cause =
      search (within, resolve_hunter_shot-Within, take_shot_last) depth 30 fits 3000
  trigger_on_death-Within (suc n) dead rnd phase cause =
      let cascade-Within : (t : String)
          → Within n (trigger_on_death world b (suc n) t rnd phase "hunter_shoot") =
        λ t. trigger_on_death-Within n t rnd phase "hunter_shoot" in
      search (within, resolve_hunter_shot-Within, take_shot-Within, cascade-Within) depth 30 fits
        3000

  -- With one step of fuel for each living player and one more, the triggers of a death do not run out
  -- of fuel, whatever is answered, and leave no more players alive than there were.
  pub trigger_on_death-cascade_fuel :
      (dead : String) (rnd : ℕ) (phase cause : String) (g : Game)
      → (is_out_of_fuel (trigger_on_death world b (cascade_fuel g) dead rnd phase cause g).0
          ≡ false)
        × (length (trigger_on_death world b (cascade_fuel g) dead rnd phase cause g).1.alive
            ≤ length g.alive)
  trigger_on_death-cascade_fuel dead rnd phase cause g =
      (trigger_on_death-Within (length g.alive) dead rnd phase cause).at g (omega arith)
