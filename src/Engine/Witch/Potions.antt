-- ===== src/Engine/Witch/Potions.antt =====
-- _resolve_witch of emergent_engine.py: which potion the witch uses.
use mathlib.Core.Path.{subst}
use werewolf_agent.Engine.Exec.{Answer, done, raised, stop, ◌>>=◌}
use werewolf_agent.Engine.State.{
  Game, Json, downgrade_turn, null, scalar, record_failure, str, unhashable, update_turn,
}
use werewolf_agent.Engine.Witch.{
  Potion, check_poison, check_potion, check_save, pass, poison, refuse, refuse_poison, save,
}
use werewolf_agent.Prelude.{
  Bool, Bool-cases, List, Option, String, arith, elem, eq_iff, eq_opt, eqb, false, if◌then◌else◌,
  inl, inr, none, not, refl, some, string_eq, sym, true, ℕ, ◌&&◌, ◌==◌, ◌||◌, ◌≡◌,
}
use werewolf_agent.Prelude.Result.{type_error}
use werewolf_agent.Runtime.Envelope.{target}

-- What the rules say: the save is for the victim alone, once a game, and for the witch herself in the
-- first night alone; the poison is for a living player other than the witch, once a game; everything
-- else is a pass.
unfoldable pub chosen :
    (rnd : ℕ)
    → (witch : String) → Option String
    → (save_used poison_used : Bool) → List String
    → (name target : String) → Potion
chosen rnd witch victim save_used poison_used alive name target =
    if name == "witch_save"
      && not save_used
      && eq_opt target victim
      && (not (target == witch) || eqb rnd 1)
    then save
    else if name == "witch_poison" && not poison_used && elem target alive && not (target == witch)
    then poison target
    else pass

refuse-pass :
    (rnd : ℕ) (witch reason : String) (target : Option String) (g : Game)
    → (refuse rnd witch reason target g).0 ≡ done pass
unfolding refuse record_failure downgrade_turn update_turn ◌>>=◌
refuse-pass rnd witch reason target g = refl

check_save-chosen :
    (rnd : ℕ) (witch : String) (victim : Option String) (save_used poison_used : Bool)
    (alive : List String) (target : String) (g : Game)
    → (check_save rnd witch victim save_used (str target) g).0
      ≡ done (chosen rnd witch victim save_used poison_used alive "witch_save" target)
unfolding check_save refuse record_failure downgrade_turn update_turn chosen ◌>>=◌
check_save-chosen rnd witch none save_used poison_used alive target g = ground arith
check_save-chosen rnd witch (some victim) save_used poison_used alive target g =
    ground (arith, eq_iff victim target, eq_iff target victim, eq_iff target witch)

check_poison-chosen :
    (rnd : ℕ) (witch : String) (victim : Option String) (save_used poison_used : Bool)
    (target : String) (g : Game)
    → (check_poison rnd witch poison_used (str target) g).0
      ≡ done (chosen rnd witch victim save_used poison_used g.alive "witch_poison" target)
unfolding check_poison refuse_poison refuse record_failure downgrade_turn update_turn chosen ◌>>=◌
check_poison-chosen rnd witch victim save_used true target g = refl
check_poison-chosen rnd witch victim save_used false target g = ground arith

pub check_potion-chosen :
    (rnd : ℕ) (witch : String) (victim : Option String) (save_used poison_used : Bool)
    (name target : String) (g : Game)
    → (check_potion rnd witch victim save_used poison_used (str name) (str target) g).0
      ≡ done (chosen rnd witch victim save_used poison_used g.alive name target)
unfolding check_potion refuse record_failure downgrade_turn update_turn chosen ◌>>=◌
check_potion-chosen rnd witch victim save_used poison_used name target g =
    elim (Bool-cases (name == "witch_save")) [
      | inl h ↦
          subst
            (λ n.
              (check_potion rnd witch victim save_used poison_used (str n) (str target) g).0
              ≡ done (chosen rnd witch victim save_used poison_used g.alive n target))
            (sym ((eq_iff name "witch_save").0 h))
            (check_save-chosen rnd witch victim save_used poison_used g.alive target g)
      | inr h ↦ elim (Bool-cases (name == "witch_poison")) [
        | inl k ↦
            subst
              (λ n.
                (check_potion rnd witch victim save_used poison_used (str n) (str target) g).0
                ≡ done (chosen rnd witch victim save_used poison_used g.alive n target))
              (sym ((eq_iff name "witch_poison").0 k))
              (check_poison-chosen rnd witch victim save_used poison_used target g)
        | inr k ↦ ground arith
      ]
    ]

-- What the check answers for every reply: the choice of the rules for two texts, a TypeError for a
-- poison that is left and has a list or an object as its target, and a pass for all else.
unfoldable pub answer_for :
    (rnd : ℕ)
    → (witch : String) → Option String
    → (save_used poison_used : Bool) → List String
    → (name target : Json) → Answer Potion
unfolding chosen
answer_for rnd witch victim save_used poison_used alive (str name) (str target) =
    done (chosen rnd witch victim save_used poison_used alive name target)
answer_for rnd witch victim save_used poison_used alive (str name) (unhashable target) =
    if name == "witch_poison" && not poison_used
    then stop (raised (type_error "unhashable type"))
    else done pass
answer_for rnd witch victim save_used poison_used alive name target = done pass

save_or_poison : (name : String) → (name == "witch_save") ≡ true → (name == "witch_poison") ≡ false
save_or_poison name h =
    subst (λ n. (n == "witch_poison") ≡ false) (sym ((eq_iff name "witch_save").0 h)) refl

-- Whatever action and target a reply names, the check of the potion answers two texts with the choice
-- of the rules, raises a TypeError exactly if the action is the poison, the poison is not used and the
-- target is a list or an object, and answers every other reply with a pass.
pub check_potion-answer_for :
    (rnd : ℕ) (witch : String) (victim : Option String) (save_used poison_used : Bool)
    (name target : Json) (g : Game)
    → (check_potion rnd witch victim save_used poison_used name target g).0
      ≡ answer_for rnd witch victim save_used poison_used g.alive name target
unfolding check_potion check_save check_poison refuse_poison refuse record_failure downgrade_turn
    update_turn answer_for ◌>>=◌
check_potion-answer_for rnd witch victim save_used poison_used (str name) (str target) g =
    check_potion-chosen rnd witch victim save_used poison_used name target g
check_potion-answer_for rnd witch none save_used poison_used (str name) null g = ground arith
check_potion-answer_for rnd witch none save_used poison_used (str name) (scalar s) g = ground arith
check_potion-answer_for rnd witch none save_used poison_used (str name) (unhashable s) g =
    ground (arith, save_or_poison name, Bool-cases poison_used)
check_potion-answer_for rnd witch (some v) save_used poison_used (str name) null g = ground arith
check_potion-answer_for rnd witch (some v) save_used poison_used (str name) (scalar s) g =
    ground arith
check_potion-answer_for rnd witch (some v) save_used poison_used (str name) (unhashable s) g =
    ground (arith, save_or_poison name, Bool-cases poison_used)
check_potion-answer_for rnd witch victim save_used poison_used null target g = refl
check_potion-answer_for rnd witch victim save_used poison_used (scalar s) target g = refl
check_potion-answer_for rnd witch victim save_used poison_used (unhashable s) target g = refl
