-- ===== src/Checker/Report.antt =====
-- check_run: the gaps, and every registered check in its order.
use werewolf_agent.Checker.Actors.{check_i2, check_i6}
use werewolf_agent.Checker.Commits.{check_i1, check_i3, check_i5}
use werewolf_agent.Checker.Nights.{check_i8, check_i8c}
use werewolf_agent.Checker.Reveals.{check_i7}
use werewolf_agent.Checker.Rows.{InvariantViolation, RunArtifacts}
use werewolf_agent.Checker.Sources.{check_i4b}
use werewolf_agent.Prelude.{Bool, List, String, [], concat, map, ℕ, ◌++◌, ◌∷◌}

abbrev pub gap : (game_id : String) → String → InvariantViolation
gap game_id missing = record {
  id = "artifact_gap";
  severity = "artifact_gap";
  game_id = game_id;
  event_ids = [];
  detail = concat ("missing " ∷ missing ∷ []);
}

unfoldable pub check_run : (is_word : ℕ → Bool) → RunArtifacts → List InvariantViolation
check_run is_word arts =
    map (gap arts.game_id) arts.gaps
    ++ check_i1 arts
    ++ check_i2 arts
    ++ check_i3 arts
    ++ check_i4b arts
    ++ check_i5 arts
    ++ check_i6 arts
    ++ check_i7 is_word arts
    ++ check_i8 arts
    ++ check_i8c arts
