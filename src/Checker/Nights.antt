-- ===== src/Checker/Nights.antt =====
-- check_i8 and check_i8c: the guard's nights. `died` is a set of which the membership is read.
pub mod Settled
pub mod Repeats
use werewolf_agent.Checker.Rows.{InvariantViolation, RunArtifacts, error, gathered}
use werewolf_agent.Engine.Hunter.{kill}
use werewolf_agent.Engine.Witch.{poison, save}
use werewolf_agent.Log.{Event}
use werewolf_agent.Prelude.{
  Bool, Dict, List, Option, String, [], elem, eq_opt, eqb, filter, if◌then◌else◌, leb, ltb, map,
  nat_eq, none, not, show, some, sorted, str_leb, string_eq, ℕ, ◌&&◌, ◌++◌, ◌+◌, ◌==◌, ◌||◌, ◌∷◌,
}

pub record NightRow : Type 0 where
  pub kill : Option String
  pub guard : Option String
  pub save : Option String
  pub poison : Option String
  pub died : List String

abbrev pub empty_night : NightRow
empty_night = record { kill = none; guard = none; save = none; poison = none; died = [] }

unfoldable pub enter_event : Event → NightRow → NightRow
enter_event e row =
    if e.type == "werewolf_kill"
    then record row { kill = some e.target }
    else if e.type == "guard_protect"
    then record row { guard = some e.target }
    else if e.type == "witch_save"
    then record row { save = some e.target }
    else if e.type == "witch_poison"
    then record row { poison = some e.target }
    else if e.type == "player_died"
    then record row { died = e.target ∷ row.died }
    else row

-- `rows.setdefault(r, …)`
abbrev pub opened : Option NightRow → NightRow
opened none = empty_night
opened (some row) = row

unfoldable pub guard_night_rows : List Event → Dict ℕ NightRow
unfolding enter_event
guard_night_rows events =
    gathered (λ (e : Event). e.round) (λ e row. enter_event e (opened row))
      (filter (λ (e : Event). e.phase == "night") events) []

unfoldable pub blocked_faults :
    (game_id : String) (r : ℕ) (kill : String) (same_save same_poison died : Bool)
    → List InvariantViolation
blocked_faults game_id r kill same_save same_poison died =
    (if not same_save && not same_poison && died
      then error "I8a" game_id []
          ("r" ∷ show r ∷ ": guard blocked kill on " ∷ kill ∷ " but they died" ∷ [])
        ∷ []
      else [])
    ++ (if same_save && not died
        then error "I8b" game_id [] (
            "r"
            ∷ show r
            ∷ ": guard+save same target "
            ∷ kill
            ∷ " must die (milk-pierce) but survived"
            ∷ [])
          ∷ []
        else [])

unfoldable pub kill_faults :
    (game_id : String) (r : ℕ) → NightRow → Option String → List InvariantViolation
unfolding blocked_faults
kill_faults game_id r row none = []
kill_faults game_id r row (some v) =
    if not (eq_opt v row.guard)
    then []
    else blocked_faults game_id r v (eq_opt v row.save) (eq_opt v row.poison) (elem v row.died)

-- what is wrong with the night of round `r`
unfoldable pub night_faults : (game_id : String) (r : ℕ) → NightRow → List InvariantViolation
unfolding kill_faults
night_faults game_id r row = kill_faults game_id r row row.kill

unfoldable pub all_night_faults : (game_id : String) → Dict ℕ NightRow → List InvariantViolation
unfolding night_faults
all_night_faults game_id [] = []
all_night_faults game_id ((r, row) ∷ rows) =
    night_faults game_id r row ++ all_night_faults game_id rows

-- the keys are distinct, so that no two rows are compared
abbrev pub by_round {ℓ} : {A : Type ℓ} → ℕ × A → ℕ × A → Bool
by_round a b = leb a.0 b.0

unfoldable pub check_i8 : RunArtifacts → List InvariantViolation
unfolding all_night_faults guard_night_rows
check_i8 arts = all_night_faults arts.game_id (sorted by_round (guard_night_rows arts.events))

-- the order of pairs
abbrev pub pair_leb : ℕ × String → ℕ × String → Bool
pair_leb a b = ltb a.0 b.0 || (eqb a.0 b.0 && str_leb a.1 b.1)

abbrev pub guarded_night : Event → ℕ × String
guarded_night e = (e.round, e.target)

-- the same target in the night before
abbrev pub repeats : ℕ × String → ℕ × String → Bool
repeats (r1, t1) (r2, t2) = eqb r2 (r1 + 1) && t1 == t2

unfoldable pub guarded_twice : (game_id : String) → ℕ × String → ℕ × String → InvariantViolation
guarded_twice game_id (r1, t1) (r2, t2) =
    error "I8c" game_id []
      ("guard protected " ∷ t1 ∷ " on consecutive nights r" ∷ show r1 ∷ ",r" ∷ show r2 ∷ [])

-- `zip(seq, seq[1:])`
unfoldable pub repeat_faults : (game_id : String) → List (ℕ × String) → List InvariantViolation
unfolding guarded_twice
repeat_faults game_id [] = []
repeat_faults game_id (a ∷ []) = []
repeat_faults game_id (a ∷ b ∷ seq) =
    let rest = repeat_faults game_id (b ∷ seq) in
    if repeats a b then guarded_twice game_id a b ∷ rest else rest

unfoldable pub check_i8c : RunArtifacts → List InvariantViolation
unfolding repeat_faults
check_i8c arts = repeat_faults arts.game_id (
    sorted pair_leb
      (map guarded_night (filter (λ (e : Event). e.type == "guard_protect") arts.events)))
