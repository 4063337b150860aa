-- ===== src/Engine/Frame.antt =====
-- All methods of emergent_engine.py that are modelled, and relations between the states around them.
pub mod Turns
pub mod Powers
pub mod Play
use werewolf_agent.Engine.Exec.{Stop, gets, halt, leak, lift, pure, ◌>>=◌}
use werewolf_agent.Engine.Exec.Keeps.{
  Keeps, Keeps-bind, Keeps-gets, Keeps-halt, Keeps-if, Keeps-lift, Keeps-pure,
}
use werewolf_agent.Engine.Hunter.{kill}
use werewolf_agent.Engine.Provider.{guard_answer, guard_prompt, note_error, provider_action}
use werewolf_agent.Engine.State.{
  AgentReply, Board, Game, M, World, acted, agent_error, append_turn, charge, decision,
  downgrade_turn, draw_from, emit, player_of, provider_action_error, record_failure, update_turn,
}
use werewolf_agent.Engine.Turns.{set_last_guarded}
use werewolf_agent.Log.{TurnRow}
use werewolf_agent.Prelude.{
  Bool, List, Option, String, [], elem, join, none, not, some, string_eq, true, ℕ, ◌∷◌, ◌≡◌,
}
use werewolf_agent.Prelude.Result.{Result}
use werewolf_agent.Runtime.Envelope.{target}
use werewolf_agent.Runtime.Turn.{DecisionRow}
use werewolf_agent.Visibility.Guard.{Leak, assert_prompt_entitled, events_by_id}
use werewolf_agent.Visibility.Observer.{seat_index_from_players}

-- the types of the events that say that a player is dead
abbrev pub death_types : List String
death_types = "player_died" ∷ "player_eliminated" ∷ []

-- no death
abbrev pub quiet : String → Bool
quiet etype = not (elem etype death_types)

-- A relation between an earlier and a later state that each primitive change respects. A death is
-- one change: the three statements of `kill` always stand together, and no other event says that
-- a player is dead.
pub record IsFrame (b : Board) (R : Game → Game → Type 0) : Type 0 where
  pub stay : (g : Game) → R g g
  pub join : (f g h : Game) → R f g → R g h → R f h
  pub charges : Keeps R (charge b)
  pub emits :
      (phase : String) (rnd : ℕ) (etype actor target visibility summary : String)
      → quiet etype ≡ true
      → Keeps R (emit b phase rnd etype actor target visibility summary)
  pub decides :
      (d : DecisionRow) (rnd : ℕ) (request_id : Option String)
      → Keeps R (decision b d rnd request_id)
  pub fails :
      (rnd : ℕ) (phase actor kind reason : String) (target : Option String)
      → Keeps R (record_failure rnd phase actor kind reason target)
  pub appends : (t : TurnRow) → Keeps R (append_turn t)
  pub updates : (f : TurnRow → TurnRow) → Keeps R (update_turn f)
  pub draws : (world : World) (over : List String) → Keeps R (draw_from world over)
  pub guards : (t : String) → Keeps R (set_last_guarded t)
  pub kills :
      (phase : String) (rnd : ℕ) (etype pid summary : String)
      → elem etype death_types ≡ true
      → Keeps R (kill b phase rnd etype pid summary)

module _ (world : World) (b : Board) {R : Game → Game → Type 0} (fr : IsFrame b R) where
  pub pure-Keeps : {A : Type 0} (a : A) → Keeps R (pure a)
  pure-Keeps a = Keeps-pure fr.stay a

  pub halt-Keeps : {A : Type 0} (e : Stop) → Keeps R (halt {A = A} e)
  halt-Keeps e = Keeps-halt fr.stay e

  pub lift-Keeps : {A : Type 0} (r : Result A) → Keeps R (lift r)
  lift-Keeps r = Keeps-lift fr.stay r

  pub gets-Keeps : {A : Type 0} (f : Game → A) → Keeps R (gets f)
  gets-Keeps f = Keeps-gets fr.stay f

  pub bind-Keeps :
      {A B : Type 0} (m : M A) (f : A → M B)
      → Keeps R m
      → ((a : A) → Keeps R (f a))
      → Keeps R (m >>= f)
  bind-Keeps m f km kf = Keeps-bind fr.stay fr.join m f km kf

  pub charge-Keeps : Keeps R (charge b)
  charge-Keeps = fr.charges

  pub emit-Keeps :
      (phase : String) (rnd : ℕ) (etype actor target visibility summary : String)
      → quiet etype ≡ true
      → Keeps R (emit b phase rnd etype actor target visibility summary)
  emit-Keeps = fr.emits

  pub decision-Keeps :
      (d : DecisionRow) (rnd : ℕ) (request_id : Option String)
      → Keeps R (decision b d rnd request_id)
  decision-Keeps = fr.decides

  pub record_failure-Keeps :
      (rnd : ℕ) (phase actor kind reason : String) (target : Option String)
      → Keeps R (record_failure rnd phase actor kind reason target)
  record_failure-Keeps = fr.fails

  pub append_turn-Keeps : (t : TurnRow) → Keeps R (append_turn t)
  append_turn-Keeps = fr.appends

  pub update_turn-Keeps : (f : TurnRow → TurnRow) → Keeps R (update_turn f)
  update_turn-Keeps = fr.updates

  pub draw_from-Keeps : (over : List String) → Keeps R (draw_from world over)
  draw_from-Keeps over = fr.draws world over

  pub set_last_guarded-Keeps : (t : String) → Keeps R (set_last_guarded t)
  set_last_guarded-Keeps = fr.guards

  pub kill-Keeps :
      (phase : String) (rnd : ℕ) (etype pid summary : String)
      → elem etype death_types ≡ true
      → Keeps R (kill b phase rnd etype pid summary)
  kill-Keeps = fr.kills

  pub ruleset basic = (
    pure-Keeps, halt-Keeps, lift-Keeps, gets-Keeps, bind-Keeps, Keeps-if, charge-Keeps, emit-Keeps,
    decision-Keeps, record_failure-Keeps, append_turn-Keeps, update_turn-Keeps, draw_from-Keeps,
    set_last_guarded-Keeps, kill-Keeps,
  )

  pub player_of-Keeps : (pid : String) → Keeps R (player_of b pid)
  unfolding player_of
  player_of-Keeps pid = search basic

  pub downgrade_turn-Keeps : (reason : String) → Keeps R (downgrade_turn reason)
  unfolding downgrade_turn
  downgrade_turn-Keeps reason = fr.updates _

  pub guard_prompt-Keeps :
      (seat : String) (sources : List String) → Keeps R (guard_prompt b seat sources)
  unfolding guard_prompt guard_answer
  guard_prompt-Keeps seat sources = record {
    at = λ g.
        by_answer
          (assert_prompt_entitled seat sources (events_by_id g.events [])
            (seat_index_from_players b.players))
          g;
  }
    where
      by_answer : (fault : Option Leak) (g : Game) → R g (guard_answer fault g).1
      by_answer none g = (pure-Keeps tt).at g
      by_answer (some fault) g = (halt-Keeps {A = Unit} (leak fault)).at g

  pub note_error-Keeps :
      (rnd : ℕ) (phase actor : String) (reply : AgentReply)
      → Keeps R (note_error rnd phase actor reply)
  unfolding note_error
  note_error-Keeps rnd phase actor (acted a) = search basic depth 30 fits 3000
  note_error-Keeps rnd phase actor (provider_action_error kind reason target) =
      search basic depth 30 fits 3000
  note_error-Keeps rnd phase actor (agent_error text) = search basic depth 30 fits 3000

  pub provider_action-Keeps :
      (pid phase : String) (rnd : ℕ) → Keeps R (provider_action world b pid phase rnd)
  unfolding provider_action
  provider_action-Keeps pid phase rnd = search (basic, guard_prompt-Keeps) depth 30 fits 3000

  pub ruleset helpers = (
    basic, player_of-Keeps, downgrade_turn-Keeps, guard_prompt-Keeps, note_error-Keeps,
    provider_action-Keeps,
  )
