-- ===== src/Engine/Deaths.antt =====
-- The deaths of run of emergent_engine.py: the living, the committed deaths and the events.
use werewolf_agent.Engine.Exec.Keeps.{Keeps-lift}
use werewolf_agent.Engine.Frame.{IsFrame, death_types, quiet}
use werewolf_agent.Engine.Frame.Play.{run-Keeps}
use werewolf_agent.Engine.Hunter.{kill}
use werewolf_agent.Engine.Kill.{kill-elim}
use werewolf_agent.Engine.Run.{run}
use werewolf_agent.Engine.State.{
  Board, Game, World, append_turn, charge, decision, draw_from, emit, initial_game, new_event,
  record_failure, update_turn,
}
use werewolf_agent.Engine.Turns.{set_last_guarded}
use werewolf_agent.Log.{Event}
use werewolf_agent.Prelude.{
  Bool, Bool-cases, List, String, [], arith, distinct, distinct-snoc, elem, elem-append,
  elem-filter, eq_iff, false, filter, filter-snoc, inl, inr, ltb, map, map-snoc, not, refl,
  string_eq, true, ℕ, ◌+◌, ◌==◌, ◌||◌, ◌∷◌, ◌≡◌,
}
use werewolf_agent.Prelude.Result.{index_error, or_raise}
use werewolf_agent.Runtime.Envelope.{target}

abbrev pub is_death : Event → Bool
is_death e = elem e.type death_types

abbrev pub seats_of : Board → List String
seats_of b = map (λ p. p.player_id) b.players

-- Every player is either alive or has its death committed, once, and the events of a death name the
-- committed ones in that order.
pub record IsAccounted (b : Board) (g : Game) : Type 0 where
  pub once : distinct g.death_committed ≡ true
  pub gone : (p : String) → elem p g.death_committed ≡ true → elem p g.alive ≡ false
  pub told : map (λ (e : Event). e.target) (filter is_death g.events) ≡ g.death_committed
  pub either :
      (p : String)
      → elem p (seats_of b) ≡ true
      → (elem p g.alive || elem p g.death_committed) ≡ true
  pub seated : (p : String) → elem p g.alive ≡ true → elem p (seats_of b) ≡ true

module _ (b : Board) where
  abbrev pub After : Game → Game → Type 0
  After g h = IsAccounted b g → IsAccounted b h

  same :
      {g k : Game}
      → k.events ≡ g.events
      → k.alive ≡ g.alive
      → k.death_committed ≡ g.death_committed
      → IsAccounted b g
      → IsAccounted b k
  same e a d h = record {
    once = rw d h.once;
    gone = λ p. rw (d, a) (h.gone p);
    told = rw (e, d) h.told;
    either = λ p. rw (a, d) (h.either p);
    seated = λ p. rw a (h.seated p);
  }

  emit-IsAccounted :
      (phase : String) (rnd : ℕ) (etype actor target visibility summary : String) (g : Game)
      → quiet etype ≡ true
      → IsAccounted b g
      → IsAccounted b (emit b phase rnd etype actor target visibility summary g).1
  unfolding emit
  emit-IsAccounted phase rnd etype actor target visibility summary g q h =
      let e = new_event b (g.seq + 1) rnd phase etype actor target visibility summary in
      let silent : is_death e ≡ false = ground arith in
      record {
        once = h.once;
        gone = h.gone;
        told = rw (filter-snoc is_death g.events e, silent) h.told;
        either = h.either;
        seated = h.seated;
      }

  kill-IsAccounted :
      (phase : String) (rnd : ℕ) (etype pid summary : String) (g : Game)
      → elem etype death_types ≡ true
      → IsAccounted b g
      → IsAccounted b (kill b phase rnd etype pid summary g).1
  unfolding emit
  kill-IsAccounted phase rnd etype pid summary g d h =
      kill-elim b phase rnd etype pid summary g (IsAccounted b)
        (λ again. record {
          once = h.once;
          gone = λ p k. ground (arith, h.gone p k, elem-filter (λ q. not (q == pid)) p g.alive);
          told = h.told;
          either = λ p k. ground (
            arith,
            again,
            h.either p k,
            elem-filter (λ q. not (q == pid)) p g.alive,
            eq_iff p pid,
          );
          seated = λ p k. h.seated p (ground (arith, elem-filter (λ q. not (q == pid)) p g.alive));
        })
        (λ first.
          let e = new_event b (g.seq + 1) rnd phase etype "system" pid "all" summary in
          record {
            once = distinct-snoc g.death_committed pid h.once first;
            gone = λ p k. ground (
              arith,
              h.gone p,
              elem-append p g.death_committed (pid ∷ []),
              elem-filter (λ q. not (q == pid)) p g.alive,
              eq_iff p pid,
            );
            told =
                rw
                  (
                    filter-snoc is_death g.events e,
                    d,
                    map-snoc (λ (e : Event). e.target) (filter is_death g.events) e,
                    h.told,
                  )
                  refl;
            either = λ p k. ground (
              arith,
              h.either p k,
              elem-append p g.death_committed (pid ∷ []),
              elem-filter (λ q. not (q == pid)) p g.alive,
              eq_iff p pid,
            );
            seated =
                λ p k. h.seated p (ground (arith, elem-filter (λ q. not (q == pid)) p g.alive));
          })

  accounted : IsFrame b After
  unfolding charge decision record_failure append_turn update_turn draw_from set_last_guarded
  accounted = record {
    stay = λ g h. h;
    join = λ f g k s t h. t (s h);
    charges = record {
      at = λ g. elim (Bool-cases (ltb b.max_requests (g.used + 1))) [
        | inl e ↦ rw e (same refl refl refl)
        | inr e ↦ rw e (same refl refl refl)
      ];
    };
    emits = λ phase rnd etype actor target visibility summary q. record {
      at = λ g h. emit-IsAccounted phase rnd etype actor target visibility summary g q h;
    };
    decides = λ d rnd request_id. record { at = λ g. same refl refl refl };
    fails = λ rnd phase actor kind reason target. record { at = λ g. same refl refl refl };
    appends = λ t. record { at = λ g. same refl refl refl };
    updates = λ f. record { at = λ g. same refl refl refl };
    draws = λ world over. record {
      at = λ g h.
          (Keeps-lift {R = After} (λ g h. h) (or_raise (index_error "draw") _)).at _
            (same refl refl refl h);
    };
    guards = λ t. record { at = λ g. same refl refl refl };
    kills = λ phase rnd etype pid summary d. record {
      at = λ g h. kill-IsAccounted phase rnd etype pid summary g d h;
    };
  }

  -- However a game ends, by a result or by an exception, every seat is alive or its death is committed
  -- and never both, no death is committed twice, nobody is alive but seats, and the events of a death
  -- name exactly the committed deaths, in their order.
  pub run-IsAccounted : (world : World) → IsAccounted b (run world b (initial_game b)).1
  unfolding initial_game
  run-IsAccounted world = run-Keeps world b accounted (initial_game b) (record {
    once = refl;
    gone = λ p k. ground arith;
    told = refl;
    either = λ p k. ground (arith, k);
    seated = λ p k. k;
  })
