-- ===== src/Tests/Checker.antt =====
-- The theorems on the checks of a finished game at concrete inputs.
use werewolf_agent.Checker.Actors.{check_i2, check_i6}
use werewolf_agent.Checker.Actors.Order.{acts_alive, checks-Ordered, has_cause}
use werewolf_agent.Checker.Commits.{capability, check_i1, check_i3, check_i5, identity, is_consume}
use werewolf_agent.Checker.Commits.Once.{checks-Once}
use werewolf_agent.Checker.Nights.{check_i8, check_i8c, night_faults}
use werewolf_agent.Checker.Nights.Repeats.{check_i8c-varied, guarded_nights, varied}
use werewolf_agent.Checker.Nights.Settled.{night_row, resolve_night-night_faults}
use werewolf_agent.Checker.Rows.{RunArtifacts, error, is_death_commit}
use werewolf_agent.Checker.Run.{from_outcome, run-check_i1}
use werewolf_agent.Checker.Sources.{check_i4b}
use werewolf_agent.Checker.Sources.Agreement.{check_i4b-guard, lets_through}
use werewolf_agent.Engine.Run.{GameResult, completed, run, villager}
use werewolf_agent.Engine.State.{initial_game}
use werewolf_agent.Log.{Event, TurnRow}
use werewolf_agent.Prelude.{
  String, [], all, arith, distinct, elem, eq_iff, filter, map, none, pair_eq, refl, show, some,
  string_eq, true, ℕ, ◌↔◌, ◌∷◌, ◌≡◌,
}
use werewolf_agent.Prelude.Result.{ok}
use werewolf_agent.Runtime.Ruleset.{night_settlement_rule, rules_v1_2}
use werewolf_agent.Runtime.Settler.{NightIntents, NightResult, resolve_night}
use werewolf_agent.Runtime.State.{RuntimeState}
use werewolf_agent.Samples.{sample_world, six_board, six_players}
use werewolf_agent.Visibility.Guard.{events_by_id}
use werewolf_agent.Visibility.Observer.{seat_index_from_players}

abbrev event :
    (event_id : String) (sequence round : ℕ) (phase type actor target visibility : String) → Event
event event_id sequence round phase type actor target visibility = record {
  event_id = event_id;
  sequence = sequence;
  round = round;
  phase = phase;
  type = type;
  actor = actor;
  target = target;
  visibility = visibility;
  summary = "";
  visible_info_refs = [];
}

-- the prompt of p3 is built from the event `source`
abbrev turn : (source : String) → TurnRow
turn source = record {
  request_id = "r1";
  round = 1;
  phase = "night";
  actor = "p3";
  response_kind = "provider_action";
  live_requested = true;
  kind = "live_success";
  fallback_reason = none;
  observation_source_event_ids = source ∷ [];
}

-- a log with a fault for each check: p6 dies twice and is last protected and saved in vain, p3 acts
-- after its death, of which there is no cause, and reads what the wolves did
abbrev faulty : RunArtifacts
faulty = record {
  game_id = "g1";
  players = six_players;
  events =
      event "e1" 1 1 "night" "guard_protect" "p5" "p6" "guard"
      ∷ event "e2" 2 1 "night" "werewolf_kill" "p1" "p6" "werewolf_team"
      ∷ event "e3" 3 1 "night" "player_died" "system" "p6" "all"
      ∷ event "e4" 4 1 "night" "player_died" "system" "p3" "all"
      ∷ event "e5" 5 1 "day" "player_vote" "p3" "p1" "public"
      ∷ event "e6" 6 2 "night" "guard_protect" "p5" "p6" "guard"
      ∷ event "e7" 7 2 "night" "player_died" "system" "p6" "all"
      ∷ [];
  decisions = [];
  provider_turns = turn "e2" ∷ turn "e1" ∷ [];
  gaps = [];
}

check_i1-faulty :
    check_i1 faulty ≡ error "I1" "g1" ("e3" ∷ "e7" ∷ []) ("player p6 committed dead 2x" ∷ []) ∷ []
unfolding check_i1 show
check_i1-faulty = refl

check_i2-faulty :
    check_i2 faulty
    ≡ error "I2" "g1" ("e5" ∷ []) ("dead actor p3 produced player_vote after death" ∷ []) ∷ []
unfolding check_i2
check_i2-faulty = refl

check_i6-faulty :
    check_i6 faulty
    ≡ error "I6" "g1" ("e4" ∷ []) ("player_died(p3) has no candidate cause event" ∷ []) ∷ []
unfolding check_i6
check_i6-faulty = refl

check_i8-faulty :
    check_i8 faulty ≡ error "I8a" "g1" [] ("r1: guard blocked kill on p6 but they died" ∷ []) ∷ []
unfolding check_i8 show
check_i8-faulty = refl

check_i8c-faulty :
    check_i8c faulty
    ≡ error "I8c" "g1" [] ("guard protected p6 on consecutive nights r1,r2" ∷ []) ∷ []
unfolding check_i8c show
check_i8c-faulty = refl

checks-Once_example :
    ((check_i1 faulty ≡ [])
      ↔ (distinct (map (λ (e : Event). e.target) (filter is_death_commit faulty.events)) ≡ true))
    × ((check_i3 faulty ≡ [])
        ↔ (distinct (map capability (filter is_consume faulty.events)) ≡ true))
    × ((check_i5 faulty ≡ []) ↔ (distinct (map identity faulty.provider_turns) ≡ true))
checks-Once_example = checks-Once faulty

checks-Ordered_example :
    ((check_i2 faulty ≡ []) ↔ (all (acts_alive faulty.events) faulty.events ≡ true))
    × ((check_i6 faulty ≡ []) ↔ (all (has_cause faulty.events) faulty.events ≡ true))
checks-Ordered_example = checks-Ordered faulty

check_i4b-guard_example : (check_i4b faulty ≡ []) ↔ (
    all
      (lets_through (seat_index_from_players six_players) (events_by_id faulty.events []))
      faulty.provider_turns
    ≡ true)
check_i4b-guard_example = check_i4b-guard faulty

check_i8c-varied_example : (check_i8c faulty ≡ []) ↔ (varied (guarded_nights faulty) ≡ true)
check_i8c-varied_example = check_i8c-varied faulty refl

abbrev villagers_won : GameResult
villagers_won = record {
  winner = villager;
  end_round = 2;
  survivors = "p3" ∷ "p4" ∷ "p5" ∷ [];
  end_condition = "all_werewolves_eliminated";
}

run-check_i1_example :
    check_i1 (
      from_outcome "g1" six_board
        (run sample_world six_board (initial_game six_board)).1
        (completed villagers_won))
    ≡ []
run-check_i1_example = run-check_i1 six_board sample_world "g1" (completed villagers_won)

-- the guard and the witch both cover p6
abbrev shielded_night : NightIntents
shielded_night = record {
  wolf_victim = some "p6";
  saved = true;
  poison_target = some "p1";
  guard_target = some "p6";
}

abbrev living_state : RuntimeState
living_state = record {
  alive = "p1" ∷ "p2" ∷ "p3" ∷ "p4" ∷ "p5" ∷ "p6" ∷ [];
  roles = map (λ p. (p.player_id, p.role)) six_players;
  night_victim = none;
  last_guarded_target = none;
  teams = none;
}

victim_alive : (v : String) → some "p6" ≡ some v → elem v living_state.alive ≡ true
victim_alive v h = ground (arith, h, eq_iff v "p6")

resolve_night-night_faults_example :
    (r : NightResult) × (resolve_night rules_v1_2 shielded_night living_state ≡ ok r)
    × (night_faults "g1" 1 (night_row shielded_night r) ≡ [])
unfolding night_settlement_rule
resolve_night-night_faults_example =
    resolve_night-night_faults rules_v1_2 shielded_night living_state "g1" 1 refl victim_alive
