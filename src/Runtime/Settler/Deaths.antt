-- ===== src/Runtime/Settler/Deaths.antt =====
-- JointSettler.resolve_night of action_runtime/settler.py: who dies in a night, and of what.
use werewolf_agent.Prelude.{
  Bool, List, Option, String, arith, distinct, elem, eq_iff, eq_opt, false, get, if◌then◌else◌,
  none, not, refl, some, string_eq, true, ◌&&◌, ◌||◌, ◌≡◌,
}
use werewolf_agent.Prelude.Result.{ok}
use werewolf_agent.Runtime.Ruleset.{BoardRuleset, night_settlement_rule}
use werewolf_agent.Runtime.Settler.{
  NightIntents, NightResult, guarded, protected, resolve_night, same_target_rule, settle_kill,
  settle_poison,
}
use werewolf_agent.Runtime.State.{RuntimeState}

-- The independent account of the night: the wolf kill lands on its living victim unless exactly one
-- of the witch's save and the guard's protection covers it.
abbrev pub is_guarded : NightIntents → String → Bool
is_guarded i p = eq_opt p i.guard_target

abbrev pub same : Bool → Bool → Bool
same a b = if a then b else not b

unfoldable pub kill_lands : NightIntents → RuntimeState → String → Bool
kill_lands i state p = eq_opt p i.wolf_victim && elem p state.alive && same i.saved (is_guarded i p)

unfoldable pub poison_lands : NightIntents → RuntimeState → String → Bool
poison_lands i state p = eq_opt p i.poison_target && elem p state.alive

unfoldable pub cause_of : NightIntents → RuntimeState → String → Option String
unfolding kill_lands poison_lands
cause_of i state p =
    if kill_lands i state p
    then some "werewolf_kill"
    else if poison_lands i state p
    then some "witch_poison"
    else none

pub record IsSettled (i : NightIntents) (state : RuntimeState) (r : NightResult) : Type 0 where
  pub dead : (p : String) → elem p r.deaths ≡ (kill_lands i state p || poison_lands i state p)
  pub causes : (p : String) → get r.death_causes p ≡ cause_of i state p
  pub once : distinct r.deaths ≡ true

abbrev pub PiercesBothShields : BoardRuleset → Type 0
PiercesBothShields rs = night_settlement_rule rs same_target_rule ≡ ok "death"

module _ (v : Option String) (prot : Bool) (poison : Option String) (state : RuntimeState) where
  abbrev settled : NightResult
  unfolding settle_poison settle_kill
  settled = settle_poison poison state (settle_kill v prot state)

  abbrev falls : String → Bool
  falls p = eq_opt p v && elem p state.alive && not prot

  abbrev poisoned : String → Bool
  poisoned p = eq_opt p poison && elem p state.alive

settled-dead :
    (v : Option String) (prot : Bool) (poison : Option String) (state : RuntimeState) (p : String)
    → elem p (settled v prot poison state).deaths
      ≡ (falls v prot poison state p || poisoned v prot poison state p)
unfolding settle_poison settle_kill
settled-dead none prot none state p = refl
settled-dead none prot (some q) state p = ground (arith, eq_iff p q)
settled-dead (some v) prot none state p = ground (arith, eq_iff p v)
settled-dead (some v) prot (some q) state p = ground (arith, eq_iff p v, eq_iff p q, eq_iff q v)

settled-causes :
    (v : Option String) (prot : Bool) (poison : Option String) (state : RuntimeState) (p : String)
    → get (settled v prot poison state).death_causes p ≡ (
        if falls v prot poison state p
        then some "werewolf_kill"
        else if poisoned v prot poison state p
        then some "witch_poison"
        else none)
unfolding settle_poison settle_kill
settled-causes none prot none state p = refl
settled-causes none prot (some q) state p = ground (arith, eq_iff p q, eq_iff q p)
settled-causes (some v) prot none state p = ground (arith, eq_iff p v, eq_iff v p)
settled-causes (some v) prot (some q) state p =
    ground (arith, eq_iff p v, eq_iff p q, eq_iff q v, eq_iff v p, eq_iff q p)

settled-once :
    (v : Option String) (prot : Bool) (poison : Option String) (state : RuntimeState)
    → distinct (settled v prot poison state).deaths ≡ true
unfolding settle_poison settle_kill
settled-once none prot none state = refl
settled-once none prot (some q) state = ground arith
settled-once (some v) prot none state = ground arith
settled-once (some v) prot (some q) state = ground (arith, eq_iff v q, eq_iff q v)

-- Under the shipped rule the victim is protected by exactly one of the two shields.
shielded : Bool → (victim guard : Option String) → Bool
shielded saved none guard = saved
shielded saved (some v) guard = not (same saved (eq_opt v guard))

protected_lem :
    (rs : BoardRuleset) (saved : Bool) (victim guard : Option String)
    → PiercesBothShields rs
    → protected rs saved victim guard ≡ ok (shielded saved victim guard)
unfolding protected guarded shielded
protected_lem rs saved none guard h = refl
protected_lem rs true (some v) none h = refl
protected_lem rs false (some v) none h = refl
protected_lem rs true (some v) (some g) h = ground (arith, eq_iff v g, eq_iff g v, h)
protected_lem rs false (some v) (some g) h = ground (arith, eq_iff v g, eq_iff g v)

kill_lands_lem :
    (saved : Bool) (victim guard : Option String) (p : String) (alive : List String)
    → (eq_opt p victim && elem p alive && not (shielded saved victim guard))
      ≡ (eq_opt p victim && elem p alive && same saved (eq_opt p guard))
unfolding shielded
kill_lands_lem saved none guard p alive = refl
kill_lands_lem true (some v) none p alive = ground (arith, eq_iff p v)
kill_lands_lem false (some v) none p alive = ground (arith, eq_iff p v)
kill_lands_lem saved (some v) (some g) p alive = ground (arith, eq_iff p v, eq_iff v g, eq_iff p g)

-- Under a ruleset whose rule for a save and a guard on one player is "death", every night settles
-- without an exception: a player dies exactly if the wolf kill or the poison lands on the living
-- player, where the kill lands unless exactly one of save and guard covers the victim; the recorded
-- cause is the kill where it lands, the poison where only the poison lands, and none for the others;
-- and no player is listed twice.
pub resolve_night-IsSettled :
    (rs : BoardRuleset) (i : NightIntents) (state : RuntimeState)
    → PiercesBothShields rs
    → (r : NightResult) × (resolve_night rs i state ≡ ok r) × IsSettled i state r
unfolding resolve_night cause_of
resolve_night-IsSettled rs i state h =
    let prot = shielded i.saved i.wolf_victim i.guard_target in
    let bridge =
      λ (p : String). kill_lands_lem i.saved i.wolf_victim i.guard_target p state.alive in
    (
      settled i.wolf_victim prot i.poison_target state,
      rw (protected_lem rs i.saved i.wolf_victim i.guard_target h) refl,
      record {
        dead = λ p. rw (← bridge p) (settled-dead i.wolf_victim prot i.poison_target state p);
        causes = λ p. rw (← bridge p) (settled-causes i.wolf_victim prot i.poison_target state p);
        once = settled-once i.wolf_victim prot i.poison_target state;
      },
    )
