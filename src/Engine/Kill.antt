-- ===== src/Engine/Kill.antt =====
-- The three statements of emergent_engine.py that bury a player, as one change of the state.
use werewolf_agent.Engine.Exec.{double_death_commit, stop, ◌>>=◌}
use werewolf_agent.Engine.Hunter.{kill}
use werewolf_agent.Engine.State.{Board, Game, commit_death, discard, emit}
use werewolf_agent.Prelude.{
  Bool-cases, String, [], elem, false, filter, inl, inr, not, refl, string_eq, true, ℕ, ◌++◌, ◌==◌,
  ◌∷◌, ◌≡◌,
}
use werewolf_agent.Visibility.Guard.{assert_death_commit_once}

-- `pid` is discarded from the living
abbrev pub buried : String → Game → Game
buried pid g = record g { alive = filter (λ p. not (p == pid)) g.alive }

-- and its death committed
abbrev pub committed : String → Game → Game
committed pid g = record (buried pid g) { death_committed = g.death_committed ++ pid ∷ [] }

module _ (b : Board) (phase : String) (rnd : ℕ) (etype pid summary : String) (g : Game) where
  -- A death that was committed before stops the game after the player is discarded.
  pub kill-again :
      elem pid g.death_committed ≡ true
      → kill b phase rnd etype pid summary g ≡ (stop (double_death_commit pid), buried pid g)
  unfolding kill discard commit_death assert_death_commit_once ◌>>=◌
  kill-again h = rw h refl

  -- A first death is committed, and then its event is written.
  pub kill-once :
      elem pid g.death_committed ≡ false
      → kill b phase rnd etype pid summary g
        ≡ emit b phase rnd etype "system" pid "all" summary (committed pid g)
  unfolding kill discard commit_death assert_death_commit_once ◌>>=◌
  kill-once h = rw h refl

  -- what holds of the states after both holds after the kill
  pub kill-elim :
      (P : Game → Type 0)
      → (elem pid g.death_committed ≡ true → P (buried pid g))
      → (elem pid g.death_committed ≡ false
          → P (emit b phase rnd etype "system" pid "all" summary (committed pid g)).1)
      → P (kill b phase rnd etype pid summary g).1
  kill-elim P again once = elim (Bool-cases (elem pid g.death_committed)) [
    | inl h ↦ rw (kill-again h) (again h)
    | inr h ↦ rw (kill-once h) (once h)
  ]
