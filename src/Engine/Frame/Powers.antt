-- ===== src/Engine/Frame/Powers.antt =====
-- The wolf kill, the witch and the hunter.
use werewolf_agent.Engine.Exec.{lift}
use werewolf_agent.Engine.Exec.Keeps.{Keeps}
use werewolf_agent.Engine.Frame.{IsFrame, basic, draw_from-Keeps, helpers, lift-Keeps}
use werewolf_agent.Engine.Hunter.{check_shot, commit_shot, refuse_shot, resolve_hunter_shot}
use werewolf_agent.Engine.State.{
  AgentReply, Board, Game, Json, ProviderReply, World, acted, agent_error, draw_from, object,
  parse_error, provider_action_error, respond_error,
}
use werewolf_agent.Engine.Witch.{
  Potion, ask_provider, check_poison, check_potion, check_save, pass, poison, read_reply, refuse,
  refuse_poison, resolve_witch, run_witch, save, use_potion,
}
use werewolf_agent.Engine.Wolves.{
  after_reply, collect_proposals, commit_kill, kill_target, propose, run_team_kill, run_wolf_kill,
}
use werewolf_agent.Log.{Player}
use werewolf_agent.Prelude.{Bool, List, Option, String, [], false, none, some, true, ℕ, ◌∷◌}
use werewolf_agent.Prelude.Result.{or_raise, type_error}
use werewolf_agent.Runtime.Envelope.{target}
use werewolf_agent.Runtime.Turn.{AgentAction, RngPick}
use werewolf_agent.Runtime.Wolves.{WolfAdjudication, WolfWindow}

module _ (world : World) (b : Board) {R : Game → Game → Type 0} (fr : IsFrame b R) where
  propose-Keeps :
      (rnd : ℕ) (wolf : Player) (a : AgentAction) (proposals : List (String × String))
      → Keeps R (propose b rnd wolf a proposals)
  unfolding propose
  propose-Keeps rnd wolf a proposals = search helpers depth 30 fits 3000

  after_reply-Keeps :
      (rnd : ℕ) (wolf : Player) (reply : AgentReply) (proposals : List (String × String))
      → Keeps R (after_reply b rnd wolf reply proposals)
  unfolding after_reply
  after_reply-Keeps rnd wolf (acted a) proposals = propose-Keeps rnd wolf a proposals
  after_reply-Keeps rnd wolf (provider_action_error kind reason target) proposals =
      search helpers depth 30 fits 3000
  after_reply-Keeps rnd wolf (agent_error text) proposals = search helpers depth 30 fits 3000

  collect_proposals-Keeps :
      (rnd : ℕ) (wolves : List String) (proposals : List (String × String))
      → Keeps R (collect_proposals world b rnd wolves proposals)
  unfolding collect_proposals
  collect_proposals-Keeps rnd [] proposals = search basic
  collect_proposals-Keeps rnd (wolf ∷ wolves) proposals =
      search (helpers, after_reply-Keeps, collect_proposals-Keeps rnd wolves) depth 30 fits 3000

  kill_target-Keeps : (adj : WolfAdjudication) → Keeps R (kill_target world adj)
  unfolding kill_target
  kill_target-Keeps adj = by_pick adj.rng_pick
    where
      by_pick :
          (p : Option RngPick)
          → Keeps R (elim p [
            | none ↦ lift (or_raise (type_error "target") adj.fixed_target)
            | some pick ↦ draw_from world pick.over
          ])
      by_pick none = lift-Keeps world b fr (or_raise (type_error "target") adj.fixed_target)
      by_pick (some pick) = draw_from-Keeps world b fr pick.over

  commit_kill-Keeps :
      (w : WolfWindow) (adj : WolfAdjudication) → Keeps R (commit_kill world b w adj)
  unfolding commit_kill
  commit_kill-Keeps w adj = search (helpers, kill_target-Keeps) depth 30 fits 3000

  run_team_kill-Keeps :
      (rnd : ℕ) (wolves : List String) → Keeps R (run_team_kill world b rnd wolves)
  unfolding run_team_kill
  run_team_kill-Keeps rnd [] = search basic
  run_team_kill-Keeps rnd (first ∷ wolves) =
      search (basic, collect_proposals-Keeps, commit_kill-Keeps) depth 30 fits 3000

  pub run_wolf_kill-Keeps : (rnd : ℕ) → Keeps R (run_wolf_kill world b rnd)
  unfolding run_wolf_kill
  run_wolf_kill-Keeps rnd = search (basic, run_team_kill-Keeps)

  ask_provider-Keeps :
      (suffix pid obs_phase turn_phase : String) (rnd : ℕ)
      → Keeps R (ask_provider world b suffix pid obs_phase turn_phase rnd)
  unfolding ask_provider
  ask_provider-Keeps suffix pid obs_phase turn_phase rnd = search helpers depth 40 fits 3000

  read_reply-Keeps :
      (rnd : ℕ) (phase actor who word : String) (reply : ProviderReply)
      → Keeps R (read_reply rnd phase actor who word reply)
  unfolding read_reply
  read_reply-Keeps rnd phase actor who word (respond_error kind reason) =
      search helpers depth 30 fits 3000
  read_reply-Keeps rnd phase actor who word (parse_error reason) = search helpers depth 30 fits 3000
  read_reply-Keeps rnd phase actor who word (object none t) = search helpers depth 30 fits 3000
  read_reply-Keeps rnd phase actor who word (object (some name) t) =
      search helpers depth 30 fits 3000

  refuse-Keeps :
      (rnd : ℕ) (witch reason : String) (target : Option String)
      → Keeps R (refuse rnd witch reason target)
  unfolding refuse
  refuse-Keeps rnd witch reason target = search helpers depth 30 fits 3000

  check_save-Keeps :
      (rnd : ℕ) (witch : String) (victim : Option String) (save_used : Bool) (target : Json)
      → Keeps R (check_save rnd witch victim save_used target)
  unfolding check_save
  check_save-Keeps rnd witch none save_used target = search (basic, refuse-Keeps) depth 30 fits 3000
  check_save-Keeps rnd witch (some victim) save_used target =
      search (basic, refuse-Keeps) depth 30 fits 3000

  refuse_poison-Keeps :
      (rnd : ℕ) (witch : String) (target : Json) → Keeps R (refuse_poison rnd witch target)
  unfolding refuse_poison
  refuse_poison-Keeps rnd witch target = refuse-Keeps rnd witch _ _

  check_poison-Keeps :
      (rnd : ℕ) (witch : String) (poison_used : Bool) (target : Json)
      → Keeps R (check_poison rnd witch poison_used target)
  unfolding check_poison
  check_poison-Keeps rnd witch true target = refuse_poison-Keeps rnd witch target
  check_poison-Keeps rnd witch false target = search (basic, refuse_poison-Keeps) depth 30 fits 3000

  check_potion-Keeps :
      (rnd : ℕ) (witch : String) (victim : Option String) (save_used poison_used : Bool)
      (name target : Json)
      → Keeps R (check_potion rnd witch victim save_used poison_used name target)
  unfolding check_potion
  check_potion-Keeps rnd witch victim save_used poison_used name target =
      search (basic, check_save-Keeps, check_poison-Keeps, refuse-Keeps) depth 30 fits 3000

  use_potion-Keeps :
      (rnd : ℕ) (witch : String) (victim : Option String) (save_used poison_used : Bool)
      (request_id : String) (potion : Potion)
      → Keeps R (use_potion b rnd witch victim save_used poison_used request_id potion)
  unfolding use_potion
  use_potion-Keeps rnd witch victim save_used poison_used request_id save =
      search basic depth 30 fits 3000
  use_potion-Keeps rnd witch victim save_used poison_used request_id (poison target) =
      search basic depth 30 fits 3000
  use_potion-Keeps rnd witch victim save_used poison_used request_id pass =
      search basic depth 30 fits 3000

  ruleset asked = (basic, ask_provider-Keeps, read_reply-Keeps)

  run_witch-Keeps :
      (rnd : ℕ) (victim : Option String) (save_used poison_used : Bool) (witches : List String)
      → Keeps R (run_witch world b rnd victim save_used poison_used witches)
  unfolding run_witch
  run_witch-Keeps rnd victim save_used poison_used [] = search basic
  run_witch-Keeps rnd victim save_used poison_used (witch ∷ witches) =
      search (asked, check_potion-Keeps, use_potion-Keeps) depth 30 fits 3000

  pub resolve_witch-Keeps :
      (rnd : ℕ) (victim : Option String) (save_used poison_used : Bool)
      → Keeps R (resolve_witch world b rnd victim save_used poison_used)
  unfolding resolve_witch
  resolve_witch-Keeps rnd victim save_used poison_used = search (basic, run_witch-Keeps)

  refuse_shot-Keeps :
      (rnd : ℕ) (phase hunter what : String) (shown target : Json)
      → Keeps R (refuse_shot rnd phase hunter what shown target)
  unfolding refuse_shot
  refuse_shot-Keeps rnd phase hunter what shown target = search helpers depth 30 fits 3000

  check_shot-Keeps :
      (rnd : ℕ) (phase hunter : String) (name target : Json)
      → Keeps R (check_shot b rnd phase hunter name target)
  unfolding check_shot
  check_shot-Keeps rnd phase hunter name target =
      search (basic, refuse_shot-Keeps) depth 30 fits 3000

  commit_shot-Keeps :
      (rnd : ℕ) (phase hunter request_id : String) (target : Option String)
      → Keeps R (commit_shot b rnd phase hunter request_id target)
  unfolding commit_shot
  commit_shot-Keeps rnd phase hunter request_id none = search basic depth 30 fits 3000
  commit_shot-Keeps rnd phase hunter request_id (some target) = search basic depth 30 fits 3000

  pub resolve_hunter_shot-Keeps :
      (hunter : String) (rnd : ℕ) (phase : String)
      → Keeps R (resolve_hunter_shot world b hunter rnd phase)
  unfolding resolve_hunter_shot
  resolve_hunter_shot-Keeps hunter rnd phase =
      search (asked, check_shot-Keeps, commit_shot-Keeps) depth 30 fits 3000
