-- ===== src/Engine/Wolves.antt =====
-- `_run_wolf_kill`: the proposals of the living wolves and the team's decision. The consensus log is
-- not modelled.
use werewolf_agent.Prelude.Result
use werewolf_agent.Engine.Exec.{gets, lift, pure, ◌>>=◌, ◌>>◌}
use werewolf_agent.Engine.Provider.{note_error, provider_action}
use werewolf_agent.Engine.State.{
  AgentReply, Board, Game, M, World, acted, decision, downgrade_turn, draw_from, emit, living,
  player_of, record_failure, runtime_state,
}
use werewolf_agent.Log.{Player}
use werewolf_agent.Prelude.{
  Bool, List, Option, String, [], concat, if◌then◌else◌, none, not, show_padded_two, some,
  string_eq, ℕ, ◌++◌, ◌==◌, ◌∷◌,
}
use werewolf_agent.Prelude.Result.{Result, ok, or_raise, type_error}
use werewolf_agent.Runtime.Envelope.{from_legacy, target}
use werewolf_agent.Runtime.Turn.{AgentAction, DecisionRow, candidates}
use werewolf_agent.Runtime.Validator.{validate_in_state}
use werewolf_agent.Runtime.Validator.Sole.{verdict}
use werewolf_agent.Runtime.Wolves.{
  WolfAdjudication, WolfRender, WolfWindow, adjudicate_wolves, render_wolves,
}

-- `_action_legal`
unfoldable pub action_legal : Board → (actor role phase : String) → AgentAction → Game → Result Bool
action_legal b actor role phase a g =
    Result.◌>>=◌
      (validate_in_state b.rules (from_legacy actor role phase a.action (some a.target) "" "")
        (runtime_state b g))
      (λ v. ok v.valid)

-- a wolf's legal action becomes a proposal
unfoldable pub propose :
    Board → (rnd : ℕ) → Player → AgentAction → List (String × String) → M (List (String × String))
unfolding action_legal record_failure downgrade_turn
propose b rnd wolf a proposals = do
  verdict ← gets (action_legal b wolf.player_id wolf.role "night" a)
  legal ← lift verdict
  if legal then pure (proposals ++ (wolf.player_id, a.target) ∷ []) else do
    record_failure rnd "night" wolf.player_id "invalid_action"
        (concat (wolf.player_id ∷ " proposed invalid kill " ∷ a.target ∷ [])) (some a.target)
    downgrade_turn (concat ("engine rejected kill target " ∷ a.target ∷ []))
    pure proposals

-- `continue` on an error
unfoldable pub after_reply :
    Board → (rnd : ℕ) → Player → AgentReply → List (String × String) → M (List (String × String))
unfolding propose note_error
after_reply b rnd wolf (acted a) proposals = propose b rnd wolf a proposals
after_reply b rnd wolf reply proposals = do
  note_error rnd "night" wolf.player_id reply
  pure proposals

unfoldable pub collect_proposals :
    World → Board → (rnd : ℕ) → List String → List (String × String) → M (List (String × String))
unfolding after_reply provider_action player_of
collect_proposals world b rnd [] proposals = pure proposals
collect_proposals world b rnd (wolf ∷ wolves) proposals = do
  (reply, request_id) ← provider_action world b wolf "night" rnd
  p ← player_of b wolf
  next ← after_reply b rnd p reply proposals
  collect_proposals world b rnd wolves next

unfoldable pub kill_target : World → WolfAdjudication → M String
unfolding draw_from
kill_target world adj = elim adj.rng_pick [
  | none ↦ lift (or_raise (type_error "target") adj.fixed_target)
  | some pick ↦ draw_from world pick.over
]

kill_decision : WolfWindow → WolfAdjudication → WolfRender → String → DecisionRow
kill_decision w adj r target = record {
  actor = r.primary;
  scope = "team";
  phase = "night";
  action = "werewolf_kill";
  target = some target;
  dtype = adj.decision_type;
  reason = r.reason;
  refs = [];
  consensus_id = some w.consensus_id;
}

unfoldable pub commit_kill : World → Board → WolfWindow → WolfAdjudication → M (Option String)
unfolding kill_target kill_decision decision emit
commit_kill world b w adj = do
  target ← kill_target world adj
  r ← lift (render_wolves w target adj.is_fallback)
  decision b (kill_decision w adj r target) w.rnd none
  emit b "night" w.rnd "werewolf_kill" r.primary target "werewolf_team"
      (concat ("Wolf team kills " ∷ target ∷ "." ∷ []))
  pure (some target)

-- `p.team == "werewolf"`
abbrev pub on_wolf_team : Player → Bool
on_wolf_team p = p.team == "werewolf"

abbrev pub off_wolf_team : Player → Bool
off_wolf_team p = not (on_wolf_team p)

unfoldable pub run_team_kill : World → Board → (rnd : ℕ) → List String → M (Option String)
unfolding collect_proposals commit_kill living
run_team_kill world b rnd [] = pure none
run_team_kill world b rnd (first ∷ wolves) = do
  proposals ← collect_proposals world b rnd (first ∷ wolves) []
  candidates ← gets (living b off_wolf_team)
  let w : WolfWindow = record {
    rnd = rnd;
    wolves = first ∷ wolves;
    proposals = proposals;
    candidates = candidates;
    consensus_id = concat (b.game_id ∷ "_consensus_r" ∷ show_padded_two rnd ∷ []);
  }
  let adj = adjudicate_wolves w
  if adj.skip then pure none else commit_kill world b w adj

unfoldable pub run_wolf_kill : World → Board → (rnd : ℕ) → M (Option String)
unfolding run_team_kill living
run_wolf_kill world b rnd = do
  wolves ← gets (living b on_wolf_team)
  run_team_kill world b rnd wolves
