-- ===== src/Runtime/Wolves/Consensus.antt =====
-- The WolfResolver of action_runtime/turn.py: the team's target and its record.
use werewolf_agent.Prelude.{
  Bool, Bool-cases, List, String, [], arith, concat, count, elem, eq_iff, eq_opt, false, filter,
  find, inl, inr, is_empty, length, map, none, pair_eq, refl, some, string_eq, true, ◌==◌, ◌↔◌, ◌∷◌,
  ◌≡◌, ◌≤◌,
}
use werewolf_agent.Prelude.Result.{ok}
use werewolf_agent.Runtime.Tally.{leaders, tally}
use werewolf_agent.Runtime.Tally.Plurality.{leaders-tally}
use werewolf_agent.Runtime.Turn.{candidates}
use werewolf_agent.Runtime.Wolves.{
  WolfAdjudication, WolfRender, WolfWindow, adjudicate_wolves, no_proposal, render_wolves,
  settle_leaders, targets_of,
}

-- the targets on which the engine may act after the verdict
unfoldable pub may_kill : WolfAdjudication → String → Bool
may_kill adj t = elim adj.rng_pick [
  | none ↦ eq_opt t adj.fixed_target
  | some pick ↦ elem t pick.over
]

may_kill-leaders :
    (targets tops : List String) (t : String)
    → may_kill (settle_leaders targets tops) t ≡ elem t tops
unfolding may_kill settle_leaders
may_kill-leaders targets [] t = refl
may_kill-leaders targets (u ∷ []) t = ground arith
may_kill-leaders targets (u ∷ v ∷ tops) t = refl

may_kill-no_proposal :
    (candidates : List String) (t : String)
    → may_kill (no_proposal candidates) t ≡ elem t candidates
unfolding may_kill no_proposal
may_kill-no_proposal [] t = refl
may_kill-no_proposal (c ∷ candidates) t = refl

-- With at least one proposal, the engine may kill a target exactly if some wolf proposed it and no
-- target has more proposals.
pub may_kill-plurality :
    (w : WolfWindow) (t : String)
    → is_empty w.proposals ≡ false
    → (may_kill (adjudicate_wolves w) t ≡ true) ↔ (
        (elem t (targets_of w.proposals) ≡ true)
        × ((u : String) → count u (targets_of w.proposals) ≤ count t (targets_of w.proposals)))
unfolding adjudicate_wolves
may_kill-plurality w t h =
    let targets = targets_of w.proposals in
    rw (h, may_kill-leaders targets (leaders (tally targets)) t) (leaders-tally targets t)

-- Without a proposal, the engine may kill exactly the candidates.
pub may_kill-candidates :
    (w : WolfWindow) (t : String)
    → is_empty w.proposals ≡ true
    → may_kill (adjudicate_wolves w) t ≡ elem t w.candidates
unfolding adjudicate_wolves
may_kill-candidates w t h = rw h (may_kill-no_proposal w.candidates t)

proposers : List (String × String) → String → List String
proposers proposals t = map (λ p. p.0) (filter (λ p. p.1 == t) proposals)

elem-proposers :
    (proposals : List (String × String)) (t x : String)
    → elem x (proposers proposals t) ≡ elem (x, t) proposals
unfolding proposers
elem-proposers [] t x = refl
elem-proposers ((wf, u) ∷ proposals) t x =
    ground (arith, elem-proposers proposals t x, eq_iff t u, eq_iff u t)

length-proposers :
    (proposals : List (String × String)) (t : String)
    → length (proposers proposals t) ≡ count t (targets_of proposals)
unfolding proposers
length-proposers [] t = refl
length-proposers ((wf, u) ∷ proposals) t =
    ground (arith, length-proposers proposals t, eq_iff t u, eq_iff u t)

-- The first proposal of a target is that of the first of its proposers.
find-proposer :
    (proposals : List (String × String)) (t : String)
    → elem t (targets_of proposals) ≡ true
    → (p : String × String) × (find (λ p. p.1 == t) proposals ≡ some p)
      × (rest : List String) × (proposers proposals t ≡ p.0 ∷ rest)
unfolding proposers
find-proposer [] t h = cc
find-proposer ((wf, u) ∷ proposals) t h = elim (Bool-cases (u == t)) [
  | inl hit ↦ ((wf, u), rw hit refl, proposers proposals t, rw hit refl)
  | inr miss ↦
      let (p, found, rest, first) =
        find-proposer proposals t (ground (arith, eq_iff u t, eq_iff t u)) in
      (p, rw miss found, rest, rw miss first)
]

status_of_leaders : (targets tops : List String) → (settle_leaders targets tops).is_fallback ≡ false
unfolding settle_leaders
status_of_leaders targets [] = refl
status_of_leaders targets (t ∷ []) = refl
status_of_leaders targets (t ∷ u ∷ tops) = refl

-- The record of a kill of `t`: it names the wolves that proposed `t` and no one else, as many as there
-- are proposals of `t`, which no target exceeds; the primary proposer is the first of them.
pub record IsRecorded (w : WolfWindow) (t : String) (r : WolfRender) : Type 0 where
  pub named : (x : String) → elem x r.supporters ≡ elem (x, t) w.proposals
  pub counted : length r.supporters ≡ count t (targets_of w.proposals)
  pub most : (u : String) → count u (targets_of w.proposals) ≤ length r.supporters
  pub primary_first : (rest : List String) × (r.supporters ≡ r.primary ∷ rest)

-- With at least one proposal, whatever target the engine may act on, the record of the kill is built
-- without an exception; its supporters are the wolves that proposed the target and no one else, one
-- for each proposal of it, and no target has more proposals; its primary proposer is the first of
-- the supporters.
pub render_wolves-IsRecorded :
    (w : WolfWindow) (t : String)
    → is_empty w.proposals ≡ false
    → may_kill (adjudicate_wolves w) t ≡ true
    → (r : WolfRender) × (render_wolves w t (adjudicate_wolves w).is_fallback ≡ ok r)
      × IsRecorded w t r
unfolding render_wolves adjudicate_wolves proposers
render_wolves-IsRecorded w t h m =
    let (named, most) = (may_kill-plurality w t h).0 m in
    let (p, found, rest, first) = find-proposer w.proposals t named in
    let counted = length-proposers w.proposals t in
    (
      record {
        primary = p.0;
        supporters = proposers w.proposals t;
        reason = concat ("wolf team kills " ∷ t ∷ []);
      },
      rw
          (
            h,
            status_of_leaders (targets_of w.proposals) (leaders (tally (targets_of w.proposals))),
            found,
          )
          refl,
      record {
        named = λ x. elem-proposers w.proposals t x;
        counted = counted;
        most = λ u. rw counted (most u);
        primary_first = (rest, first);
      },
    )
