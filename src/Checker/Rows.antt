-- ===== src/Checker/Rows.antt =====
-- RunArtifacts of invariants/artifacts.py, InvariantViolation of invariants/checker.py, and dictionaries
-- that are filled one row at a time. Every key of a row is present, so no default is read.
use werewolf_agent.Log.{DecisionEntry, Event, Player, TurnRow}
use werewolf_agent.Prelude.{
  Bool, Dict, Eq, List, Option, String, [], arith, concat, elem, get, if◌then◌else◌, none, refl,
  some, string_eq, ◌==◌, ◌∷◌, ◌≡◌,
}

-- the streams of a finished game, without its result, which no check reads
pub record RunArtifacts : Type 0 where
  pub game_id : String
  pub players : List Player
  pub events : List Event
  pub decisions : List DecisionEntry
  pub provider_turns : List TurnRow
  pub gaps : List String

pub record InvariantViolation : Type 0 where
  pub id : String
  pub severity : String
  pub game_id : String
  pub event_ids : List String
  pub detail : String

abbrev pub error : (id game_id : String) → List String → (detail : List String) → InvariantViolation
error id game_id event_ids detail = record {
  id = id;
  severity = "error";
  game_id = game_id;
  event_ids = event_ids;
  detail = concat detail;
}

abbrev pub death_commit_types : List String
death_commit_types = "player_died" ∷ "player_eliminated" ∷ []

abbrev pub is_death_commit : Event → Bool
is_death_commit e = elem e.type death_commit_types

module _ {ℓ κ} {K : Type ℓ} {V : Type κ} ⦃e : Eq K⦄ where
  -- `d[k] = f(d.get(k))`, in place or behind the last entry
  abbrev pub update : Dict K V → K → (Option V → V) → Dict K V
  update [] k f = (k, f none) ∷ []
  update ((j, w) ∷ d) k f =
      let rest = update d k f in if j == k then (j, f (some w)) ∷ d else (j, w) ∷ rest

  pub get-update :
      (d : Dict K V) (k j : K) (f : Option V → V)
      → get (update d k f) j ≡ (if k == j then some (f (get d k)) else get d j)
  get-update [] k j f = refl
  get-update ((i, w) ∷ d) k j f =
      ground (arith, get-update d k j f, e.test_iff i k, e.test_iff i j, e.test_iff k j)

module _ {ℓ κ ι} {A : Type ι} {K : Type ℓ} {V : Type κ} ⦃e : Eq K⦄ where
  -- one update for each row
  abbrev pub gathered : (A → K) → (A → Option V → V) → List A → Dict K V → Dict K V
  gathered key f [] d = d
  gathered key f (x ∷ xs) d = gathered key f xs (update d (key x) (f x))
