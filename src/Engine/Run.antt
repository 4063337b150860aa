-- ===== src/Engine/Run.antt =====
-- `_win_check`, `_run_inner`, `_failed_outcome` and `run`.
pub mod Winner
use werewolf_agent.Prelude.Result
use werewolf_agent.Engine.Day.{run_day}
use werewolf_agent.Engine.Exec.{Answer, budget_exhausted, done, gets, halt, pure, stop, ◌>>=◌, ◌>>◌}
use werewolf_agent.Engine.Night.{run_night}
use werewolf_agent.Engine.State.{Board, Game, M, World, emit, living, record_failure}
use werewolf_agent.Engine.Wolves.{off_wolf_team, on_wolf_team}
use werewolf_agent.Log.{Player}
use werewolf_agent.Prelude.{
  Bool, List, Option, String, [], any, concat, eqb, false, filter, if◌then◌else◌, leb, length, none,
  show, some, sorted, str_leb, string_eq, suc, zero, ℕ, ◌==◌, ◌∷◌,
}
use werewolf_agent.Prelude.Result.{Result, err, ok, value_error}
use werewolf_agent.Runtime.Ruleset.{BoardRuleset, rules_v1_1, rules_v1_2}

pub data Team : Type 0 where
  villager werewolf : Team

unfoldable pub win_check : Board → Game → Option Team
unfolding living
win_check b g =
    let wolves = length (living b on_wolf_team g) in
    let others = length (living b off_wolf_team g) in
    if eqb wolves 0 then some villager else if leb others wolves then some werewolf else none

-- the result part of a completed game's log
pub record GameResult : Type 0 where
  pub winner : Team
  pub end_round : ℕ
  pub survivors : List String
  pub end_condition : String

pub data GameOutcome : Type 0 where
  completed : GameResult → GameOutcome
  failed : (end_condition : String) → GameOutcome

abbrev pub end_condition_of : Team → String
end_condition_of villager = "all_werewolves_eliminated"
end_condition_of werewolf = "werewolves_reach_parity"

abbrev winning_side : Team → String
winning_side villager = "villager_team"
winning_side werewolf = "werewolf_team"

abbrev last_words : Team → String
last_words villager = "All werewolves eliminated. Villager team wins."
last_words werewolf = "Werewolves reached parity. Werewolf team wins."

unfoldable pub finish : Board → (rnd : ℕ) → Team → M GameOutcome
unfolding emit
finish b rnd winner = do
  emit b "game_end" rnd "game_over" "system" (winning_side winner) "all" (last_words winner)
  alive ← gets (λ g. g.alive)
  pure (
      completed (record {
        winner = winner;
        end_round = rnd;
        survivors = sorted str_leb alive;
        end_condition = end_condition_of winner;
      }))

unfoldable pub failed_outcome : (end_condition reason : String) → M GameOutcome
unfolding record_failure
failed_outcome end_condition reason = do
  record_failure 0 "game_end" "system" end_condition reason none
  pure (failed end_condition)

-- `break` out of the loop with a winner, or go on
unfoldable pub decided : Board → (rnd : ℕ) → Option Team → M GameOutcome → M GameOutcome
unfolding finish
decided b rnd none rest = rest
decided b rnd (some winner) rest = finish b rnd winner

-- The loop over the rounds: `left` rounds from round `rnd` on.
unfoldable pub rounds :
    World → Board → (left rnd : ℕ) → (save_used poison_used : Bool) → M GameOutcome
unfolding failed_outcome run_night run_day decided win_check
rounds world b zero rnd save_used poison_used =
    failed_outcome "round_cap"
      (concat ("no winner within " ∷ show b.max_day_rounds ∷ " day-rounds" ∷ []))
rounds world b (suc left) rnd save_used poison_used = do
  night ← run_night world b rnd save_used poison_used
  after_night ← gets (win_check b)
  decided b rnd after_night (do
    run_day world b rnd night.deaths
    after_day ← gets (win_check b)
    decided b rnd after_day (rounds world b left (suc rnd) night.save_used night.poison_used))

unfoldable pub run_inner : World → Board → M GameOutcome
unfolding emit rounds
run_inner world b = do
  emit b "setup" 0 "role_assignment" "system" "none" "public" "Roles assigned to all 6 players."
  rounds world b b.max_day_rounds 1 false false

-- `except BudgetExhausted`; every other exception goes through
unfoldable pub catch_budget : Answer GameOutcome → M GameOutcome
unfolding failed_outcome
catch_budget (done outcome) = pure outcome
catch_budget (stop (budget_exhausted used limit)) =
    failed_outcome "budget_exhausted"
      (concat ("budget exhausted: " ∷ show used ∷ "/" ∷ show limit ∷ " requests" ∷ []))
catch_budget (stop e) = halt e

unfoldable pub run : World → Board → M GameOutcome
unfolding catch_budget run_inner
run world b g = let (answer, g') = run_inner world b g in catch_budget answer g'

-- the checks and choices of the constructor

at_most_one : List Player → List String → Result (Unit {0})
at_most_one players [] = ok tt
at_most_one players (special ∷ specials) =
    let rest = at_most_one players specials in
    if leb (length (filter (λ p. p.role == special) players)) 1
    then rest
    else err (value_error special)

unfoldable pub board_rules : List Player → BoardRuleset
board_rules players = if any (λ p. p.role == "guard") players then rules_v1_2 else rules_v1_1

unfoldable pub new_board :
    (game_id : String) → List Player → (max_requests max_day_rounds : ℕ) → Result Board
unfolding at_most_one board_rules
new_board game_id players max_requests max_day_rounds =
    Result.◌>>=◌ (at_most_one players ("seer" ∷ "witch" ∷ "guard" ∷ [])) (λ _. ok (record {
      game_id = game_id;
      players = players;
      rules = board_rules players;
      max_requests = max_requests;
      max_day_rounds = max_day_rounds;
    }))
