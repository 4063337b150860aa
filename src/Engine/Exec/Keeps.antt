-- ===== src/Engine/Exec/Keeps.antt =====
-- What an action does to the state, by one rule for each way to build an action.
use werewolf_agent.Engine.Exec.{
  Answer, Exec, Stop, continue, done, gets, halt, lift, pure, stop, ◌>>=◌,
}
use werewolf_agent.Prelude.{Bool, false, if◌then◌else◌, true}
use werewolf_agent.Prelude.Result.{Result, err, ok}

-- the state before and the state after `m`, whether it returns or stops, are related
pub record Keeps {ℓ} {S A : Type ℓ} (R : S → S → Type ℓ) (m : Exec S A) : Type ℓ where
  pub at : (s : S) → R s (m s).1

module _ {ℓ} {S A : Type ℓ} {R : S → S → Type ℓ} (stay : (s : S) → R s s) where
  pub Keeps-pure : (a : A) → Keeps R (pure a)
  unfolding pure
  Keeps-pure a = record { at = stay }

  pub Keeps-halt : (e : Stop) → Keeps R (halt {A = A} e)
  unfolding halt
  Keeps-halt e = record { at = stay }

  pub Keeps-lift : (r : Result A) → Keeps R (lift r)
  unfolding lift
  Keeps-lift (ok a) = record { at = stay }
  Keeps-lift (err e) = record { at = stay }

  pub Keeps-gets : (f : S → A) → Keeps R (gets f)
  unfolding gets
  Keeps-gets f = record { at = stay }

module _ {ℓ} {S A : Type ℓ} {R : S → S → Type ℓ} where
  pub Keeps-if : (b : Bool) (m n : Exec S A) → Keeps R m → Keeps R n → Keeps R (if b then m else n)
  Keeps-if true m n km kn = km
  Keeps-if false m n km kn = kn

module _ {ℓ} {S A B : Type ℓ} {R : S → S → Type ℓ} (stay : (s : S) → R s s)
    (join : (s t u : S) → R s t → R t u → R s u) where
  Keeps-continue :
      (r : Answer A) (f : A → Exec S B)
      → ((a : A) → Keeps R (f a))
      → (s : S) → R s (continue r f s).1
  Keeps-continue (done a) f kf s = (kf a).at s
  Keeps-continue (stop e) f kf s = stay s

  pub Keeps-bind :
      (m : Exec S A) (f : A → Exec S B) → Keeps R m → ((a : A) → Keeps R (f a)) → Keeps R (m >>= f)
  unfolding ◌>>=◌
  Keeps-bind m f km kf = record {
    at = λ s. let (r, s') = m s in join s s' _ (km.at s) (Keeps-continue r f kf s');
  }
