-- ===== src/Participant/Steps.antt =====
-- The calls that change the store, as they come from the threads one after the other, and what holds
-- between them.
use werewolf_agent.Participant.Controller.{
  Controller, OpenRequest, configure_human_seat, ensure_stub_action_window, open_action_window,
}
use werewolf_agent.Participant.Controller.Fresh.{ending}
use werewolf_agent.Participant.Idempotency.{IdempotencyRecord, recorded}
use werewolf_agent.Participant.Names.{Fields}
use werewolf_agent.Participant.Submit.{submit_action}
use werewolf_agent.Participant.Wait.{poll}
use werewolf_agent.Participant.Window.{ActionWindow, PyText, Submission, accepted_status, is_open}
use werewolf_agent.Participant.Window.Stored.{IsStored}
use werewolf_agent.Prelude.{
  Bool, List, String, [], elem, false, get, none, some, string_eq, true, ℕ, ◌∷◌, ◌≡◌, ◌≤◌,
}

pub data Call : Type 0 where
  configures : (run seat : String) → Call
  opens : (run seat : String) → OpenRequest → Call
  stubs : (deadline_at run seat : String) → Call
  submits : (run seat : String) → Fields → Call
  polls : (id : String) → (expired : Bool) → Call

unfoldable pub step : PyText → Call → Controller → Controller
unfolding configure_human_seat open_action_window ensure_stub_action_window submit_action poll
step py (configures run seat) c = (configure_human_seat run seat c).1
step py (opens run seat r) c = (open_action_window py run seat r c).1
step py (stubs deadline_at run seat) c = (ensure_stub_action_window py deadline_at run seat c).1
step py (submits run seat request) c = (submit_action py run seat request c).1
step py (polls id expired) c = (poll py id expired c).1

unfoldable pub after : PyText → List Call → Controller → Controller
unfolding step
after py [] c = c
after py (call ∷ calls) c = after py calls (step py call c)

-- A window that is stored under its id, was made by the counter, and has only valid fields.
pub record IsKept (py : PyText) (counter : ℕ) (id : String) (w : ActionWindow) : Type 0 where
  pub named : w.action_window_id ≡ id
  pub made : ending 0 id ≤ counter
  pub stored : IsStored py w

-- What holds of the store between two calls: each window is well kept; a seat has at most one open
-- window; and a submission is accepted only for a window that is then closed, which allowed its action.
pub record IsConsistent (py : PyText) (c : Controller) : Type 0 where
  pub kept :
      (id : String) (w : ActionWindow) → get c.windows id ≡ some w → IsKept py c.window_counter id w
  pub one_open :
      (id jd : String) (v w : ActionWindow)
      → get c.windows id ≡ some v
      → get c.windows jd ≡ some w
      → is_open v.status ≡ true
      → is_open w.status ≡ true
      → v.run_id ≡ w.run_id
      → v.seat_id ≡ w.seat_id
      → id ≡ jd
  pub accepted :
      (id : String) (s : Submission)
      → get c.accepted_submissions id ≡ some s
      → (w : ActionWindow) × (get c.windows id ≡ some w)
        × (w.status ≡ accepted_status)
        × (elem s.action_type w.allowed_actions ≡ true)

-- What no call takes back: a window stays, and as it is once it is closed; an
-- accepted submission stays, none comes for a closed window, and a recorded key keeps its record.
pub record IsLater (c d : Controller) : Type 0 where
  pub closed_stays :
      (id : String) (w : ActionWindow)
      → get c.windows id ≡ some w
      → is_open w.status ≡ false
      → get d.windows id ≡ some w
  pub window_stays :
      (id : String) (w : ActionWindow)
      → get c.windows id ≡ some w
      → (u : ActionWindow) × (get d.windows id ≡ some u)
  pub accepted_stays :
      (id : String) (s : Submission)
      → get c.accepted_submissions id ≡ some s
      → get d.accepted_submissions id ≡ some s
  pub none_comes :
      (id : String) (w : ActionWindow)
      → get c.windows id ≡ some w
      → is_open w.status ≡ false
      → get c.accepted_submissions id ≡ none
      → get d.accepted_submissions id ≡ none
  pub recorded_stays :
      (s : Submission) (r : IdempotencyRecord)
      → recorded c.ledger s ≡ some r
      → recorded d.ledger s ≡ some r

pub IsLater_refl : (c : Controller) → IsLater c c
IsLater_refl c = record {
  closed_stays = λ id w h k. h;
  window_stays = λ id w h. (w, h);
  accepted_stays = λ id s h. h;
  none_comes = λ id w h k e. e;
  recorded_stays = λ s r h. h;
}

pub IsLater_trans : (c d e : Controller) → IsLater c d → IsLater d e → IsLater c e
IsLater_trans c d e h k = record {
  closed_stays = λ id w g s. k.closed_stays id w (h.closed_stays id w g s) s;
  window_stays = λ id w g. let (u, there) = h.window_stays id w g in k.window_stays id u there;
  accepted_stays = λ id s g. k.accepted_stays id s (h.accepted_stays id s g);
  none_comes =
      λ id w g s n. k.none_comes id w (h.closed_stays id w g s) s (h.none_comes id w g s n);
  recorded_stays = λ s r g. k.recorded_stays s r (h.recorded_stays s r g);
}

-- A change that keeps the store consistent and takes nothing back.
pub record IsSound (py : PyText) (c d : Controller) : Type 0 where
  pub consistent : IsConsistent py d
  pub later : IsLater c d
