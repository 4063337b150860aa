-- ===== src/Runtime/Turn/Legal.antt =====
-- The targets of the turns of one actor: the resolvers of action_runtime/turn.py on the shipped boards.
use werewolf_agent.Prelude.{
  Bool, Bool-cases, List, Option, String, [], all, all-elem, arith, elem, elem-filter, eq_iff,
  eq_opt, false, inl, inr, none, not, refl, some, string_eq, sym, true, ◌&&◌, ◌==◌, ◌∙◌, ◌∷◌, ◌≡◌,
}
use werewolf_agent.Prelude.Result.{ok}
use werewolf_agent.Runtime.Turn.{
  Adjudication, AgentAction, DecisionWindow, Resolver, accepted, adjudicate, adjudicate_action,
  fall_back, fallback_candidates, guard_resolver, is_legal, seer_resolver, vote_resolver,
}
use werewolf_agent.Runtime.Turn.Actions.{IsTurn, is_barred, judged, rule_lem, rule_of}

-- the targets on which the engine may act after the verdict
unfoldable pub may_target : Adjudication → String → Bool
may_target adj t = elim adj.rng_pick [
  | none ↦ eq_opt t adj.accepted_target
  | some pick ↦ elem t pick.over
]

elem-fallback :
    (r : Resolver) (w : DecisionWindow) (t : String)
    → elem t (fallback_candidates r w) ≡ (elem t w.alive_seat_order && not (is_barred r w t))
unfolding fallback_candidates
elem-fallback seer_resolver w t = elem-filter (λ p. not (p == w.actor)) t w.alive_seat_order
elem-fallback guard_resolver w t =
    elem-filter (λ p. not (eq_opt p w.runtime_state.last_guarded_target)) t w.alive_seat_order
elem-fallback vote_resolver w t = elem-filter (λ p. not (p == w.actor)) t w.alive_seat_order

may-fall_back :
    (r : Resolver) (w : DecisionWindow) (live : Option AgentAction) (cands : List String)
    (t : String)
    → may_target (fall_back r w live cands) t ≡ elem t cands
unfolding may_target fall_back
may-fall_back r w live [] t = refl
may-fall_back r w live (c ∷ cands) t = refl

abbrev IsFair : Resolver → DecisionWindow → Adjudication → Type 0
IsFair r w adj =
    (t : String)
    → may_target adj t ≡ true
    → (elem t w.runtime_state.alive ≡ true) × (is_barred r w t ≡ false)

fall_back-IsFair :
    (r : Resolver) (w : DecisionWindow) (live : Option AgentAction)
    → all (λ p. elem p w.runtime_state.alive) w.alive_seat_order ≡ true
    → IsFair r w (fall_back r w live (fallback_candidates r w))
fall_back-IsFair r w live seats t m =
    let listed : elem t (fallback_candidates r w) ≡ true =
      sym (may-fall_back r w live (fallback_candidates r w) t) ∙ m in
    ground (
      arith,
      listed,
      elem-fallback r w t,
      all-elem (λ p. elem p w.runtime_state.alive) t w.alive_seat_order seats,
    )

accepted-IsFair :
    (r : Resolver) (w : DecisionWindow) (a : AgentAction)
    → rule_of r w.runtime_state w.actor a.target ≡ true
    → IsFair r w (accepted a.target)
unfolding may_target
accepted-IsFair r w a rule t m = ground (arith, rule_lem r w a.target, eq_iff t a.target)

-- On both boards of the engine, a turn of the seer, of the guard or of a voter that is opened over
-- living seats is judged without an exception, whatever the agent returned or failed to return; and
-- every target on which the engine may then act, the accepted one or any outcome of the fallback
-- draw, is alive and not barred: not the actor for the seer and the voter, not the target of the last
-- guarded night for the guard.
pub adjudicate-IsFair :
    (r : Resolver) (w : DecisionWindow)
    → IsTurn r w
    → (adj : Adjudication) × (adjudicate r w ≡ ok adj)
      × ((t : String)
          → may_target adj t ≡ true
          → (elem t w.runtime_state.alive ≡ true) × (is_barred r w t ≡ false))
unfolding adjudicate adjudicate_action is_legal
adjudicate-IsFair r w h = go w.live_action
  where
    go :
        (live : Option AgentAction)
        → (adj : Adjudication) × (adjudicate_action r w live ≡ ok adj) × IsFair r w adj
    go none = (
      fall_back r w none (fallback_candidates r w),
      refl,
      fall_back-IsFair r w none h.seats_alive,
    )
    go (some a) =
        let (v, e, valid) = judged r w a h.board h.opens in
        elim (Bool-cases v.valid) [
          | inl legal ↦ (
            accepted a.target,
            rw (e, legal) refl,
            accepted-IsFair r w a (ground (arith, valid legal)),
          )
          | inr illegal ↦ (
            fall_back r w (some a) (fallback_candidates r w),
            rw (e, illegal) refl,
            fall_back-IsFair r w (some a) h.seats_alive,
          )
        ]
