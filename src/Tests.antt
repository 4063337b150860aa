-- ===== src/Tests.antt =====
-- Each theorem at one concrete input.
pub mod Participant
pub mod Checker
pub mod Visibility
use werewolf_agent.Engine.Cascade.{is_out_of_fuel}
use werewolf_agent.Engine.Cascade.Enough.{trigger_on_death-cascade_fuel}
use werewolf_agent.Engine.Deaths.{IsAccounted, run-IsAccounted}
use werewolf_agent.Engine.Exec.{done, raised, stop}
use werewolf_agent.Engine.History.{IsNumbered, run-IsNumbered}
use werewolf_agent.Engine.Hunter.{trigger_on_death}
use werewolf_agent.Engine.Later.{IsLater, run-IsLater}
use werewolf_agent.Engine.Night.{cascade_fuel}
use werewolf_agent.Engine.Run.{run}
use werewolf_agent.Engine.Run.Winner.{Promises, run-Promises}
use werewolf_agent.Engine.State.{Game, initial_game, str, unhashable}
use werewolf_agent.Engine.Witch.{check_potion, pass}
use werewolf_agent.Engine.Witch.Potions.{answer_for, check_potion-answer_for}
use werewolf_agent.Log.{Event, Player}
use werewolf_agent.Prelude.{
  All, Dict, List, String, [], count, elem, false, length, map, none, refl, some, string_eq, true,
  ◌&&◌, ◌==◌, ◌||◌, ◌↔◌, ◌∷◌, ◌≡◌, ◌≤◌,
}
use werewolf_agent.Prelude.Result.{ok, type_error}
use werewolf_agent.Runtime.Abilities.{AbilityDefinition, alive_non_wolf, arity_one}
use werewolf_agent.Runtime.Envelope.{from_legacy}
use werewolf_agent.Runtime.Registry.{abilities_for, allowed_actions, legal_targets}
use werewolf_agent.Runtime.Registry.Total.{
  abilities_for-superset, allowed_actions-total, rules_v1_2-IsWellFormed,
}
use werewolf_agent.Runtime.Ruleset.{
  ability, all_rulesets, enter_rulesets, night_settlement_rule, rules_v1, rules_v1_1, rules_v1_2,
}
use werewolf_agent.Runtime.Ruleset.Teams.{HasTeam, enter_rulesets-HasTeam}
use werewolf_agent.Runtime.Settler.{NightIntents, NightResult, resolve_night}
use werewolf_agent.Runtime.Settler.Deaths.{IsSettled, resolve_night-IsSettled}
use werewolf_agent.Runtime.State.{RuntimeState}
use werewolf_agent.Runtime.Tally.{leaders, tally}
use werewolf_agent.Runtime.Tally.Plurality.{leaders-tally}
use werewolf_agent.Runtime.Triggers.{TriggerSystem, resolve}
use werewolf_agent.Runtime.Triggers.Chain.{IsChain}
use werewolf_agent.Runtime.Triggers.Order.{Follows, resolve-Follows}
use werewolf_agent.Runtime.Turn.{Adjudication, DecisionWindow, adjudicate, guard_resolver}
use werewolf_agent.Runtime.Turn.Actions.{guard_board, is_barred}
use werewolf_agent.Runtime.Turn.Legal.{adjudicate-IsFair, may_target}
use werewolf_agent.Runtime.Validator.{ValidationResult, validate_in_state}
use werewolf_agent.Runtime.Validator.Agreement.{IsAllowed, legal_targets-validate}
use werewolf_agent.Runtime.Validator.Sole.{is_target, sole_action, verdict}
use werewolf_agent.Runtime.Wolves.{
  WolfRender, WolfWindow, adjudicate_wolves, render_wolves, targets_of,
}
use werewolf_agent.Runtime.Wolves.Consensus.{
  may_kill, may_kill-plurality, IsRecorded, render_wolves-IsRecorded,
}
use werewolf_agent.Samples.{sample_world, six_board, six_players}
use werewolf_agent.Visibility.Engine.{private_refs_for_role, public_refs}
use werewolf_agent.Visibility.Guard.{assert_prompt_entitled, events_by_id}
use werewolf_agent.Visibility.NoLeak.{assert_prompt_entitled-refs}
use werewolf_agent.Visibility.Observer.{entitled, seat_index_from_players}
use werewolf_agent.Visibility.Witness.{IsSeated, engine_shows, entitled-eq-engine_shows}

abbrev night_state : RuntimeState
night_state = record {
  alive = "p1" ∷ "p2" ∷ "p3" ∷ "p4" ∷ "p5" ∷ "p6" ∷ [];
  roles = map (λ p. (p.player_id, p.role)) six_players;
  night_victim = none;
  last_guarded_target = some "p3";
  teams = none;
}

abbrev started : Game
unfolding initial_game
started = initial_game six_board

run-IsAccounted_example :
    IsAccounted six_board (run sample_world six_board (initial_game six_board)).1
run-IsAccounted_example = run-IsAccounted six_board sample_world

run-IsNumbered_example :
    IsNumbered six_board (run sample_world six_board (initial_game six_board)).1
run-IsNumbered_example = run-IsNumbered six_board sample_world

run-IsLater_example :
    IsLater (initial_game six_board) (run sample_world six_board (initial_game six_board)).1
run-IsLater_example = run-IsLater six_board sample_world (initial_game six_board)

trigger_on_death-cascade_fuel_example :
    (is_out_of_fuel
        (trigger_on_death sample_world six_board
          (cascade_fuel started)
          "p6"
          1
          "night"
          "werewolf_kill"
          started).0
      ≡ false)
    × (length
          (trigger_on_death sample_world six_board
            (cascade_fuel started)
            "p6"
            1
            "night"
            "werewolf_kill"
            started).1.alive
        ≤ length started.alive)
trigger_on_death-cascade_fuel_example =
    trigger_on_death-cascade_fuel sample_world six_board "p6" 1 "night" "werewolf_kill" started

run-Promises_example :
    Promises six_board
      (run sample_world six_board (initial_game six_board)).0
      (run sample_world six_board (initial_game six_board)).1
run-Promises_example = run-Promises sample_world six_board (initial_game six_board)

check_potion-answer_for_example :
    (check_potion 2 "p4" none true false (str "witch_poison") (unhashable "['p1']") started).0
    ≡ answer_for 2 "p4" none true false started.alive (str "witch_poison") (unhashable "['p1']")
check_potion-answer_for_example =
    check_potion-answer_for 2 "p4" none true false (str "witch_poison") (unhashable "['p1']")
      started

-- the poison is left, then it is used
poison_of_a_list :
    (answer_for 2 "p4" none true false started.alive (str "witch_poison") (unhashable "['p1']")
      ≡ stop (raised (type_error "unhashable type")))
    × (answer_for 2 "p4" none true true started.alive (str "witch_poison") (unhashable "['p1']")
        ≡ done pass)
unfolding answer_for
poison_of_a_list = (refl, refl)

abbrev intents : NightIntents
intents = record {
  wolf_victim = some "p6";
  saved = true;
  poison_target = some "p1";
  guard_target = some "p6";
}

resolve_night-IsSettled_example :
    (r : NightResult) × (resolve_night rules_v1_2 intents night_state ≡ ok r)
    × IsSettled intents night_state r
unfolding night_settlement_rule
resolve_night-IsSettled_example = resolve_night-IsSettled rules_v1_2 intents night_state refl

abbrev check_event : Event
check_event = record {
  event_id = "g1_e001";
  sequence = 1;
  round = 1;
  phase = "night";
  type = "seer_check";
  actor = "p3";
  target = "p1";
  visibility = "seer";
  summary = "";
  visible_info_refs = [];
}

abbrev seer : Player
seer = record { player_id = "p3"; role = "seer"; team = "villager" }

entitled-eq-engine_shows_example :
    entitled "p3" check_event (seat_index_from_players six_players) ≡ engine_shows seer "seer"
unfolding seat_index_from_players
entitled-eq-engine_shows_example =
    entitled-eq-engine_shows seer (seat_index_from_players six_players) check_event refl refl refl

assert_prompt_entitled-refs_example :
    assert_prompt_entitled "p3"
      ("g1_e001" ∷ [])
      (events_by_id (check_event ∷ []) [])
      (seat_index_from_players six_players)
    ≡ none
unfolding seat_index_from_players public_refs private_refs_for_role
assert_prompt_entitled-refs_example =
    assert_prompt_entitled-refs seer (check_event ∷ []) (seat_index_from_players six_players) refl
      refl refl refl ("g1_e001" ∷ []) refl

abbrev votes : List String
votes = "a" ∷ "b" ∷ "a" ∷ []

leaders-tally_example :
    (elem "a" (leaders (tally votes)) ≡ true)
    ↔ ((elem "a" votes ≡ true) × ((u : String) → count u votes ≤ count "a" votes))
leaders-tally_example = leaders-tally votes "a"

abbrev hunt : WolfWindow
hunt = record {
  rnd = 1;
  wolves = "p1" ∷ "p2" ∷ [];
  proposals = ("p1", "p6") ∷ ("p2", "p6") ∷ [];
  candidates = "p3" ∷ "p6" ∷ [];
  consensus_id = "g1_consensus_r01";
}

may_kill-plurality_example : (may_kill (adjudicate_wolves hunt) "p6" ≡ true) ↔ (
    (elem "p6" (targets_of hunt.proposals) ≡ true)
    × ((u : String) → count u (targets_of hunt.proposals) ≤ count "p6" (targets_of hunt.proposals)))
may_kill-plurality_example = may_kill-plurality hunt "p6" refl

render_wolves-IsRecorded_example :
    (r : WolfRender) × (render_wolves hunt "p6" (adjudicate_wolves hunt).is_fallback ≡ ok r)
    × IsRecorded hunt "p6" r
unfolding adjudicate_wolves may_kill leaders tally
render_wolves-IsRecorded_example = render_wolves-IsRecorded hunt "p6" refl refl

abbrev shot_system : TriggerSystem
shot_system = record {
  triggers = ("hunter", λ s dead. "p2" ∷ []) ∷ [];
  seat_order = map (λ p. p.player_id) six_players;
}

resolve-Follows_example :
    (r : List String) × (resolve shot_system ("p6" ∷ []) night_state ≡ some r)
    × IsChain shot_system night_state ("p6" ∷ []) r
    × Follows shot_system night_state ("p6" ∷ []) [] r
resolve-Follows_example = resolve-Follows shot_system ("p6" ∷ []) night_state

-- initial deaths and the living players that are named, each time by seat
abbrev chain_system : TriggerSystem
chain_system = record {
  triggers = ("hunter", λ s dead. "p5" ∷ "p2" ∷ "p6" ∷ "p9" ∷ []) ∷ [];
  seat_order = map (λ p. p.player_id) six_players;
}

chain_of_deaths :
    resolve chain_system ("p6" ∷ "p3" ∷ []) night_state ≡ some ("p3" ∷ "p6" ∷ "p2" ∷ "p5" ∷ [])
unfolding resolve
chain_of_deaths = refl

allowed_actions-total_example :
    (actions : List String) × (allowed_actions rules_v1_2 "witch" "night" ≡ ok actions)
allowed_actions-total_example =
    allowed_actions-total rules_v1_2 "witch" "night" rules_v1_2-IsWellFormed

abilities_for-superset_example :
    (abilities_for rules_v1_1 "seer" "night" ≡ abilities_for rules_v1 "seer" "night")
    × (abilities_for rules_v1_2 "seer" "night" ≡ abilities_for rules_v1 "seer" "night")
abilities_for-superset_example = abilities_for-superset "seer" "night" refl

abbrev role_teams : Dict String String
role_teams =
    ("werewolf", "werewolf")
    ∷ ("seer", "villager")
    ∷ ("witch", "villager")
    ∷ ("villager", "villager")
    ∷ ("hunter", "villager")
    ∷ ("guard", "villager")
    ∷ []

enter_rulesets-HasTeam_example : All (λ rs. All (HasTeam role_teams) rs.roles) all_rulesets
unfolding enter_rulesets
enter_rulesets-HasTeam_example = enter_rulesets-HasTeam all_rulesets [] role_teams refl

abbrev kill_ability : AbilityDefinition
kill_ability = record {
  action_id = "werewolf_kill";
  trigger = "phase:night";
  target_rule = "alive_non_wolf";
  target_arity = arity_one;
  visibility = "werewolf_team";
  suppressed_by_cause = [];
}

may_kill_now : IsAllowed rules_v1_2 "werewolf" "night" "werewolf_kill" kill_ability
unfolding allowed_actions abilities_for ability
may_kill_now = record {
  actions = "werewolf_kill" ∷ [];
  listed = refl;
  found = refl;
  defined = refl;
}

legal_targets-validate_example :
    (targets : List String) × (legal_targets rules_v1_2 "werewolf_kill" "p1" night_state
      ≡ ok targets)
    × ((t why type : String)
        → (t == "" || t == "none") ≡ false
        → (v : ValidationResult) × (validate_in_state rules_v1_2
              (from_legacy "p1" "werewolf" "night" "werewolf_kill" (some t) why type)
              night_state
            ≡ ok v)
          × (elem t targets ≡ (elem t night_state.alive && v.valid)))
legal_targets-validate_example =
    legal_targets-validate rules_v1_2 "werewolf" "night" "werewolf_kill" kill_ability alive_non_wolf
      "p1" night_state may_kill_now refl refl

abbrev act : String
act = "werewolf_kill"

sole_action_example :
    (v : ValidationResult) × (verdict rules_v1_2 "p1" "werewolf" "night" act "p6" night_state
      ≡ ok v)
    × (v.valid
        ≡ (act == "werewolf_kill" && (is_target "p6" && alive_non_wolf night_state "p1" "p6")))
unfolding allowed_actions abilities_for ability
sole_action_example =
    sole_action rules_v1_2 "p1" "werewolf" "night" "werewolf_kill" kill_ability alive_non_wolf refl
      refl refl refl act "p6" night_state

abbrev guard_window : DecisionWindow
guard_window = record {
  rnd = 2;
  actor = "p5";
  role = "guard";
  emit_phase = "night";
  registry_phase = "night";
  alive_seat_order = "p1" ∷ "p3" ∷ "p5" ∷ [];
  public_refs = [];
  live_action = some (record { action = "guard_protect"; target = "p3" });
  validator = rules_v1_2;
  runtime_state = night_state;
}

adjudicate-IsFair_example :
    (adj : Adjudication) × (adjudicate guard_resolver guard_window ≡ ok adj)
    × ((t : String)
        → may_target adj t ≡ true
        → (elem t night_state.alive ≡ true) × (is_barred guard_resolver guard_window t ≡ false))
adjudicate-IsFair_example =
    adjudicate-IsFair guard_resolver guard_window
      (record { board = guard_board; opens = (refl, refl); seats_alive = refl })
