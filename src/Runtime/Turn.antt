-- ===== src/Runtime/Turn.antt =====
-- action_runtime/turn.py: the pure half of a turn. A resolver judges the read-only window of one
-- actor, or the proposals of the wolf team, and says what the engine is to do. The random draws are
-- left to the engine. A resolver class is a constructor, and a method is a function of it.
pub mod Actions
pub mod Legal
use werewolf_agent.Prelude.{
  Bool, List, Option, String, [], concat, eq_opt, false, filter, if◌then◌else◌, none, not, some,
  string_eq, true, ℕ, ◌==◌, ◌∷◌,
}
use werewolf_agent.Prelude.Result.{Result, ok, ◌>>=◌}
use werewolf_agent.Runtime.Envelope.{from_legacy, target}
use werewolf_agent.Runtime.Ruleset.{BoardRuleset}
use werewolf_agent.Runtime.State.{RuntimeState, is_wolf}
use werewolf_agent.Runtime.Validator.{validate_in_state}

pub record RngPick : Type 0 where
  pub kind : String
  pub over : List String

pub record FailureRow : Type 0 where
  pub kind : String
  pub reason : String
  pub target : Option String

pub record DecisionRow : Type 0 where
  pub actor : String
  pub scope : String
  pub phase : String
  pub action : String
  pub target : Option String
  pub dtype : String
  pub reason : String
  pub refs : List String
  pub consensus_id : Option String

pub record EventRow : Type 0 where
  pub phase : String
  pub etype : String
  pub actor : String
  pub target : String
  pub visibility : String
  pub summary : String

pub record EmitPlan : Type 0 where
  pub decision : DecisionRow
  pub event : EventRow

pub record Adjudication : Type 0 where
  pub skip : Bool
  pub accepted_target : Option String
  pub rng_pick : Option RngPick
  pub decision_type : String
  pub failure : Option FailureRow
  pub downgrade_reason : Option String

-- what a resolver reads of an `AgentAction`
pub record AgentAction : Type 0 where
  pub action : String
  pub target : String

-- The validator is its ruleset.
pub record DecisionWindow : Type 0 where
  pub rnd : ℕ
  pub actor : String
  pub role : String
  pub emit_phase : String
  pub registry_phase : String
  pub alive_seat_order : List String
  pub public_refs : List String
  pub live_action : Option AgentAction
  pub validator : BoardRuleset
  pub runtime_state : RuntimeState

pub data Resolver : Type 0 where
  seer_resolver guard_resolver vote_resolver : Resolver

-- the property `candidates`: alive in seat order, without the actor
unfoldable pub candidates : DecisionWindow → List String
candidates w = filter (λ p. not (p == w.actor)) w.alive_seat_order

unfoldable pub is_legal : DecisionWindow → AgentAction → Result Bool
is_legal w a = do
  v ←
      validate_in_state w.validator
        (from_legacy w.actor w.role w.registry_phase a.action (some a.target) "" "") w.runtime_state
  ok v.valid

-- whom a fallback draw may choose
unfoldable pub fallback_candidates : Resolver → DecisionWindow → List String
unfolding candidates
fallback_candidates guard_resolver w =
    filter (λ p. not (eq_opt p w.runtime_state.last_guarded_target)) w.alive_seat_order
fallback_candidates _ w = candidates w

-- the words by which a resolver complains
complaint : Resolver → String
complaint seer_resolver = "seer_check"
complaint guard_resolver = "guard_protect"
complaint vote_resolver = "vote"

abbrev pub accepted : String → Adjudication
accepted target = record {
  skip = false;
  accepted_target = some target;
  rng_pick = none;
  decision_type = "inference_based";
  failure = none;
  downgrade_reason = none;
}

abbrev pub skipped : Adjudication
skipped = record {
  skip = true;
  accepted_target = none;
  rng_pick = none;
  decision_type = "";
  failure = none;
  downgrade_reason = none;
}

bad_action : Resolver → DecisionWindow → Option AgentAction → Option FailureRow
unfolding complaint
bad_action r w none = none
bad_action r w (some a) = some (record {
  kind = "invalid_action";
  reason = concat (w.actor ∷ " bad " ∷ complaint r ∷ " " ∷ a.target ∷ []);
  target = some a.target;
})

rejection : Resolver → Option AgentAction → Option String
unfolding complaint
rejection r none = none
rejection r (some a) = some (concat ("engine rejected " ∷ complaint r ∷ " " ∷ a.target ∷ []))

-- the fallback: a draw over the candidates, or a skip without any
unfoldable pub fall_back :
    Resolver → DecisionWindow → Option AgentAction → List String → Adjudication
unfolding bad_action rejection
fall_back r w live [] = skipped
fall_back r w live (c ∷ cands) = record {
  skip = false;
  accepted_target = none;
  rng_pick = some (record { kind = "choice"; over = c ∷ cands });
  decision_type = "default";
  failure = bad_action r w live;
  downgrade_reason = rejection r live;
}

unfoldable pub adjudicate_action :
    Resolver → DecisionWindow → Option AgentAction → Result Adjudication
unfolding is_legal fall_back fallback_candidates
adjudicate_action r w none = ok (fall_back r w none (fallback_candidates r w))
adjudicate_action r w (some a) = do
  legal ← is_legal w a
  ok (if legal then accepted a.target else fall_back r w (some a) (fallback_candidates r w))

unfoldable pub adjudicate : Resolver → DecisionWindow → Result Adjudication
unfolding adjudicate_action
adjudicate r w = adjudicate_action r w w.live_action

unfoldable pub render : Resolver → DecisionWindow → (target dtype : String) → EmitPlan
render seer_resolver w target dtype = record {
  decision = record {
    actor = w.actor;
    scope = "single";
    phase = "night";
    action = "seer_check";
    target = some target;
    dtype = dtype;
    reason = concat ("seer checks " ∷ target ∷ []);
    refs = [];
    consensus_id = none;
  };
  event = record {
    phase = "night";
    etype = "seer_check";
    actor = w.actor;
    target = target;
    visibility = "seer";
    summary = concat (
        "Seer "
        ∷ w.actor
        ∷ " checks "
        ∷ target
        ∷ ", result: "
        ∷ (if is_wolf w.runtime_state target then "werewolf" else "good")
        ∷ "."
        ∷ []);
  };
}
render guard_resolver w target dtype = record {
  decision = record {
    actor = w.actor;
    scope = "single";
    phase = "night";
    action = "guard_protect";
    target = some target;
    dtype = dtype;
    reason = concat ("guard protects " ∷ target ∷ []);
    refs = [];
    consensus_id = none;
  };
  event = record {
    phase = "night";
    etype = "guard_protect";
    actor = w.actor;
    target = target;
    visibility = "guard";
    summary = concat ("Guard " ∷ w.actor ∷ " protects " ∷ target ∷ "." ∷ []);
  };
}
render vote_resolver w target dtype = record {
  decision = record {
    actor = w.actor;
    scope = "single";
    phase = "day";
    action = "player_vote";
    target = some target;
    dtype = dtype;
    reason = concat (w.actor ∷ " votes " ∷ target ∷ []);
    refs = w.public_refs;
    consensus_id = none;
  };
  event = record {
    phase = "day";
    etype = "player_vote";
    actor = w.actor;
    target = target;
    visibility = "public";
    summary = concat (w.actor ∷ " votes " ∷ target ∷ "." ∷ []);
  };
}
