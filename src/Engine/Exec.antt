-- ===== src/Engine/Exec.antt =====
-- Methods of the engine: they change the state, and return or stop by an exception.
pub mod Keeps
use werewolf_agent.Prelude.{String, ℕ}
use werewolf_agent.Prelude.Result.{Error, Result, err, ok}
use werewolf_agent.Visibility.Guard.{Leak}

pub data Stop : Type 0 where
  budget_exhausted : (used limit : ℕ) → Stop
  double_death_commit : String → Stop
  leak : Leak → Stop
  raised : Error → Stop
  -- the model's own: the bound on a cascade of shots is met
  out_of_fuel : Stop

pub data Answer {ℓ} (A : Type ℓ) : Type ℓ where
  done : A → Answer A
  stop : Stop → Answer A

abbrev pub Exec {ℓ} : Type ℓ → Type ℓ → Type ℓ
Exec S A = S → Answer A × S

module _ {ℓ} {S A : Type ℓ} where
  unfoldable pub pure : A → Exec S A
  pure a s = (done a, s)

  unfoldable pub halt : Stop → Exec S A
  halt e s = (stop e, s)

  unfoldable pub gets : (S → A) → Exec S A
  gets f s = (done (f s), s)

  -- a pure computation that may raise
  unfoldable pub lift : Result A → Exec S A
  lift (ok a) s = (done a, s)
  lift (err e) s = (stop (raised e), s)

unfoldable pub modify {ℓ} : {S : Type ℓ} → (S → S) → Exec S (Unit {ℓ})
modify f s = (done tt, f s)

module _ {ℓ} {S A B : Type ℓ} where
  abbrev pub continue : Answer A → (A → Exec S B) → Exec S B
  continue (done a) f s = f a s
  continue (stop e) f s = (stop e, s)

  infixl 5 ◌>>=◌ ◌>>◌
  unfoldable pub ◌>>=◌ : Exec S A → (A → Exec S B) → Exec S B
  unfolding pure halt gets lift modify
  ◌>>=◌ method next before = let (answer, after) = method before in continue answer next after

  abbrev pub ◌>>◌ : Exec S A → Exec S B → Exec S B
  first >> second = first >>= λ a. second
