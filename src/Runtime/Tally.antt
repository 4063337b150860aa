-- ===== src/Runtime/Tally.antt =====
-- The count of votes that `WolfResolver.adjudicate` (action_runtime/turn.py) and `_run_vote_round`
-- (emergent_engine.py) share.
pub mod Plurality
use werewolf_agent.Prelude.{
  Dict, List, String, [], eqb, filter, get_default, if◌then◌else◌, keys, ltb, put, sorted, str_leb,
  string_eq, values, ℕ, ◌+◌, ◌∷◌,
}

-- counts[t] = counts.get(t, 0) + 1, for each vote
unfoldable pub tally_from : Dict String ℕ → List String → Dict String ℕ
tally_from counts [] = counts
tally_from counts (t ∷ votes) = tally_from (put counts t (get_default counts t 0 + 1)) votes

unfoldable pub tally : List String → Dict String ℕ
unfolding tally_from
tally votes = tally_from [] votes

larger : ℕ → ℕ → ℕ
larger a b = if ltb a b then b else a

-- `max(values)`; both callers have a value
unfoldable pub maximum : List ℕ → ℕ
unfolding larger
maximum [] = 0
maximum (v ∷ rest) = larger v (maximum rest)

-- sorted(t for t, c in counts.items() if c == max(counts.values()))
unfoldable pub leaders : Dict String ℕ → List String
unfolding maximum
leaders counts =
    let top = maximum (values counts) in sorted str_leb (keys (filter (λ e. eqb e.1 top) counts))
