-- ===== src/Log.antt =====
-- The rows of a game log, as the engine emits them and the observer and the checker read them. Every
-- key of a row is present.
use werewolf_agent.Prelude.{Bool, List, Option, String, ℕ}

pub record Event : Type 0 where
  pub event_id : String
  pub sequence : ℕ
  pub round : ℕ
  pub phase : String
  pub type : String
  pub actor : String
  pub target : String
  pub visibility : String
  pub summary : String
  pub visible_info_refs : List String

-- `EnginePlayer` of game_engine.py, and the entry of the log's `players`
pub record Player : Type 0 where
  pub player_id : String
  pub role : String
  pub team : String

-- a provider turn, without the model's name and the token counts
pub record TurnRow : Type 0 where
  pub request_id : String
  pub round : ℕ
  pub phase : String
  pub actor : String
  pub response_kind : String
  pub live_requested : Bool
  pub kind : String
  pub fallback_reason : Option String
  pub observation_source_event_ids : List String

-- a row of the decision log
pub record DecisionEntry : Type 0 where
  pub decision_id : String
  pub actor : String
  pub decision_scope : String
  pub consensus_id : Option String
  pub phase : String
  pub round : ℕ
  pub action : String
  pub target : Option String
  pub visible_info_refs : List String
  pub reason_summary : String
  pub decision_type : String
  pub request_id : Option String

-- a row of the failure audit, `build_failure` of game_engine.py
pub record FailureEntry : Type 0 where
  pub round : ℕ
  pub phase : String
  pub actor : String
  pub kind : String
  pub reason : String
  pub target : Option String
