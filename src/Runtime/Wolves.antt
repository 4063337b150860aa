-- ===== src/Runtime/Wolves.antt =====
-- action_runtime/turn.py, `WolfResolver`: the consensus of the wolf team over its proposals.
pub mod Consensus
use werewolf_agent.Prelude.{
  Bool, List, Option, String, [], all, concat, false, filter, find, if◌then◌else◌, is_empty, map,
  none, some, string_eq, true, ℕ, ◌==◌, ◌∷◌,
}
use werewolf_agent.Prelude.Result.{Result, err, index_error, ok, or_raise, stop_iteration, ◌>>=◌}
use werewolf_agent.Runtime.Envelope.{target}
use werewolf_agent.Runtime.Tally.{leaders, tally}
use werewolf_agent.Runtime.Turn.{RngPick, candidates}

-- The proposals are pairs (wolf, target), in the order in which they were made.
pub record WolfWindow : Type 0 where
  pub rnd : ℕ
  pub wolves : List String
  pub proposals : List (String × String)
  pub candidates : List String
  pub consensus_id : String

pub record WolfAdjudication : Type 0 where
  pub skip : Bool
  pub fixed_target : Option String
  pub rng_pick : Option RngPick
  pub status : String
  pub decision_type : String
  pub is_fallback : Bool

pub record WolfRender : Type 0 where
  pub primary : String
  pub supporters : List String
  pub reason : String

abbrev pub targets_of : List (String × String) → List String
targets_of proposals = map (λ p. p.1) proposals

unfoldable pub no_proposal : List String → WolfAdjudication
no_proposal [] = record {
  skip = true;
  fixed_target = none;
  rng_pick = none;
  status = "";
  decision_type = "";
  is_fallback = false;
}
no_proposal (c ∷ candidates) = record {
  skip = false;
  fixed_target = none;
  rng_pick = some (record { kind = "choice"; over = c ∷ candidates });
  status = "coordinator_tie_break";
  decision_type = "default";
  is_fallback = true;
}

-- `len({t for _, t in proposals}) == 1`: all name the target of the first
unanimous : List String → Bool
unanimous [] = false
unanimous (t ∷ targets) = all (λ u. u == t) targets

unfoldable pub settle_leaders : List String → List String → WolfAdjudication
unfolding unanimous
settle_leaders targets (t ∷ []) = record {
  skip = false;
  fixed_target = some t;
  rng_pick = none;
  status = if unanimous targets then "consensus" else "coordinator_tie_break";
  decision_type = "team_coordinated";
  is_fallback = false;
}
settle_leaders targets tied = record {
  skip = false;
  fixed_target = none;
  rng_pick = some (record { kind = "randrange_index"; over = tied });
  status = "coordinator_tie_break";
  decision_type = "team_coordinated";
  is_fallback = false;
}

unfoldable pub adjudicate_wolves : WolfWindow → WolfAdjudication
unfolding no_proposal settle_leaders
adjudicate_wolves w =
    if is_empty w.proposals
    then no_proposal w.candidates
    else settle_leaders (targets_of w.proposals) (leaders (tally (targets_of w.proposals)))

-- `wolves[0]`
unfoldable pub first_of_list : List String → Result String
first_of_list [] = err (index_error "wolves")
first_of_list (x ∷ xs) = ok x

unfoldable pub render_wolves : WolfWindow → String → Bool → Result WolfRender
unfolding first_of_list
render_wolves w target true = do
  primary ← first_of_list w.wolves
  ok (record {
    primary = primary;
    supporters = [];
    reason = concat ("fallback kill " ∷ target ∷ []);
  })
render_wolves w target false = do
  found ← or_raise (stop_iteration "primary") (find (λ p. p.1 == target) w.proposals)
  ok (record {
    primary = found.0;
    supporters = map (λ p. p.0) (filter (λ p. p.1 == target) w.proposals);
    reason = concat ("wolf team kills " ∷ target ∷ []);
  })
