-- ===== src/Participant/Refusals.antt =====
-- What a refused submission leaves behind.
use werewolf_agent.Participant.Controller.{Controller, seat_pair, with_seat}
use werewolf_agent.Participant.Errors.{Checked, ProtocolError, refused, valid}
use werewolf_agent.Participant.Names.{Fields}
use werewolf_agent.Participant.Steps.{IsConsistent}
use werewolf_agent.Participant.Submissions.{accept_lem, judge-IsFresh}
use werewolf_agent.Participant.Submit.{
  Verdict, follow, fresh, judge, repeated, submit_action, submit_for_seat,
}
use werewolf_agent.Participant.Window.{PyText, new_submission}
use werewolf_agent.Participant.Window.Stored.{IsPython, stored_index}
use werewolf_agent.Prelude.{String, ap, refl, sym, ◌∙◌, ◌≡◌}

module _ (py : PyText) (python : IsPython py) (request : Fields) (c d : Controller)
    (h : IsConsistent py c) (fault : ProtocolError) where
  refused_for_seat :
      (run seat : String) → submit_for_seat py request run seat c ≡ (refused fault, d) → d ≡ c
  unfolding submit_for_seat follow
  refused_for_seat run seat = by_verdict (judge c run seat (new_submission request)) refl
    where
      by_verdict :
          (v : Checked Verdict)
          → judge c run seat (new_submission request) ≡ v
          → follow py v c ≡ (refused fault, d)
          → d ≡ c
      by_verdict (refused f) e k = sym (ap (λ p. p.1) k)
      by_verdict (valid (repeated result)) e k = cc (ap (λ p. p.0) k)
      by_verdict (valid (fresh s w)) e k =
          let fits = judge-IsFresh c run seat (new_submission request) s w e in
          let (n, index) = stored_index py w (h.kept s.action_window_id w fits.found).stored in
          cc (ap (λ p. p.0) (sym (accept_lem py python c h s w fits n index) ∙ k))

  refused_with_seat :
      (pair : Checked (String × String))
      → with_seat pair (submit_for_seat py request) c ≡ (refused fault, d)
      → d ≡ c
  refused_with_seat (refused f) k = sym (ap (λ p. p.1) k)
  refused_with_seat (valid (run, seat)) k = refused_for_seat run seat k

-- Where texts are stripped and digits are read as Python does it: a submission that a consistent store
-- refuses, for whatever reason, leaves the store as it was.
pub submit_action_refused :
    (py : PyText)
    → IsPython py
    → (run_id seat_id : String) (request : Fields) (c d : Controller) (fault : ProtocolError)
    → IsConsistent py c
    → submit_action py run_id seat_id request c ≡ (refused fault, d)
    → d ≡ c
unfolding submit_action
submit_action_refused py python run_id seat_id request c d fault h =
    refused_with_seat py python request c d h fault (seat_pair run_id seat_id)
