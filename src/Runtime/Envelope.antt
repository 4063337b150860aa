-- ===== src/Runtime/Envelope.antt =====
-- action_runtime/envelope.py: the uniform intent of an action. `params` is always empty and the
-- confidence is carried along unread, so neither is kept.
use werewolf_agent.Prelude.{
  List, Option, String, [], if◌then◌else◌, none, some, string_eq, ◌==◌, ◌||◌, ◌∷◌,
}

pub record ActionEnvelope : Type 0 where
  pub actor : String
  pub role : String
  pub phase : String
  pub action : String
  pub targets : List String
  pub reason_summary : String
  pub decision_type : String

first_target : List String → Option String
first_target [] = none
first_target (t ∷ ts) = some t

-- the property `target`
unfoldable pub target : ActionEnvelope → Option String
unfolding first_target
target env = first_target env.targets

-- `[] if target in (None, "", "none") else [target]`
unfoldable pub legacy_targets : Option String → List String
legacy_targets none = []
legacy_targets (some t) = if t == "" || t == "none" then [] else t ∷ []

unfoldable pub from_legacy :
    (actor role phase action : String)
    → Option String
    → (reason_summary decision_type : String) → ActionEnvelope
unfolding legacy_targets
from_legacy actor role phase action target reason_summary decision_type = record {
  actor = actor;
  role = role;
  phase = phase;
  action = action;
  targets = legacy_targets target;
  reason_summary = reason_summary;
  decision_type = decision_type;
}
