-- ===== src/Checker/Nights/Settled.antt =====
-- check_i8 against the settlement of the night.
use werewolf_agent.Checker.Nights.{NightRow, blocked_faults, kill_faults, night_faults}
use werewolf_agent.Prelude.{
  Bool, Bool-cases, Option, String, [], arith, elem, eq_opt, eq_self, false, if◌then◌else◌, inl,
  inr, none, refl, some, string_eq, true, ℕ, ◌||◌, ◌≡◌,
}
use werewolf_agent.Prelude.Result.{ok}
use werewolf_agent.Runtime.Ruleset.{BoardRuleset}
use werewolf_agent.Runtime.Settler.{NightIntents, NightResult, resolve_night}
use werewolf_agent.Runtime.Settler.Deaths.{
  IsSettled, PiercesBothShields, kill_lands, poison_lands, resolve_night-IsSettled,
}
use werewolf_agent.Runtime.State.{RuntimeState}

-- the row of a night in which the intents are logged and the deaths committed
abbrev pub night_row : NightIntents → NightResult → NightRow
night_row i r = record {
  kill = i.wolf_victim;
  guard = i.guard_target;
  save = if i.saved then i.wolf_victim else none;
  poison = i.poison_target;
  died = r.deaths;
}

blocked_faults-none :
    (game_id v : String) (n : ℕ) (saved poisoned died : Bool)
    → (died ≡ (saved || poisoned))
    → blocked_faults game_id n v saved poisoned died ≡ []
unfolding blocked_faults
blocked_faults-none game_id v n true poisoned died h = rw h refl
blocked_faults-none game_id v n false true died h = refl
blocked_faults-none game_id v n false false died h = rw h refl

eq_saved : (v : String) (saved : Bool) → eq_opt v (if saved then some v else none) ≡ saved
eq_saved v true = eq_self v
eq_saved v false = refl

kill_faults-none :
    (game_id : String) (n : ℕ) (i : NightIntents) (state : RuntimeState) (r : NightResult)
    (victim : Option String)
    → i.wolf_victim ≡ victim
    → ((v : String) → i.wolf_victim ≡ some v → elem v state.alive ≡ true)
    → IsSettled i state r
    → kill_faults game_id n (night_row i r) victim ≡ []
unfolding kill_faults kill_lands poison_lands
kill_faults-none game_id n i state r none e h s = refl
kill_faults-none game_id n i state r (some v) e h s = elim (Bool-cases (eq_opt v i.guard_target)) [
  | inr other ↦ rw other refl
  | inl equal ↦
      rw (equal, e, eq_saved v i.saved)
        (blocked_faults-none game_id v n i.saved (eq_opt v i.poison_target) (elem v r.deaths)
          (rw (s.dead v, e, eq_self v, h v e, equal) (ground arith)))
]

-- Under a ruleset whose rule for a save and a guard on one player is "death", a night whose victim, if
-- there is one, is alive settles, and check_i8 finds no fault in the night's row.
pub resolve_night-night_faults :
    (rs : BoardRuleset) (i : NightIntents) (state : RuntimeState) (game_id : String) (n : ℕ)
    → PiercesBothShields rs
    → ((v : String) → i.wolf_victim ≡ some v → elem v state.alive ≡ true)
    → (r : NightResult) × (resolve_night rs i state ≡ ok r)
      × (night_faults game_id n (night_row i r) ≡ [])
unfolding night_faults
resolve_night-night_faults rs i state game_id n h k =
    let (r, settles, s) = resolve_night-IsSettled rs i state h in
    (r, settles, kill_faults-none game_id n i state r i.wolf_victim refl k s)
