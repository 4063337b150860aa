-- ===== src/Runtime/Settler.antt =====
-- action_runtime/settler.py: the night as one joint computation over the collected intents.
pub mod Deaths
use werewolf_agent.Prelude.{
  Bool, Dict, List, Option, String, [], elem, false, if◌then◌else◌, none, not, some, string_eq,
  true, ◌&&◌, ◌++◌, ◌==◌, ◌∷◌,
}
use werewolf_agent.Prelude.Result.{Result, ok, ◌>>=◌}
use werewolf_agent.Runtime.Ruleset.{BoardRuleset, night_settlement_rule}
use werewolf_agent.Runtime.State.{RuntimeState}

pub record NightIntents : Type 0 where
  pub wolf_victim : Option String
  pub saved : Bool
  pub poison_target : Option String
  pub guard_target : Option String

pub record NightResult : Type 0 where
  pub deaths : List String
  pub death_causes : Dict String String

abbrev pub same_target_rule : String
same_target_rule = "guard+save_same_target"

-- the guard cancels the kill, unless the witch saved the same player and the rule says "death"
unfoldable pub guarded : BoardRuleset → Bool → Result Bool
guarded rs false = ok true
guarded rs true = do rule ← night_settlement_rule rs same_target_rule; ok (not (rule == "death"))

unfoldable pub protected : BoardRuleset → Bool → (victim guard : Option String) → Result Bool
unfolding guarded
protected rs saved none guard = ok saved
protected rs saved (some v) none = ok saved
protected rs saved (some v) (some g) = if g == v then guarded rs saved else ok saved

-- the wolf kill lands
unfoldable pub settle_kill : Option String → Bool → RuntimeState → NightResult
settle_kill none prot state = record { deaths = []; death_causes = [] }
settle_kill (some v) prot state =
    if not prot && elem v state.alive
    then record { deaths = v ∷ []; death_causes = (v, "werewolf_kill") ∷ [] }
    else record { deaths = []; death_causes = [] }

-- the poison adds a death
unfoldable pub settle_poison : Option String → RuntimeState → NightResult → NightResult
settle_poison none state r = r
settle_poison (some p) state r =
    if elem p state.alive && not (elem p r.deaths)
    then record {
      deaths = r.deaths ++ p ∷ [];
      death_causes = r.death_causes ++ (p, "witch_poison") ∷ [];
    }
    else r

unfoldable pub resolve_night : BoardRuleset → NightIntents → RuntimeState → Result NightResult
unfolding protected settle_kill settle_poison
resolve_night rs i state = do
  prot ← protected rs i.saved i.wolf_victim i.guard_target
  ok (settle_poison i.poison_target state (settle_kill i.wolf_victim prot state))
