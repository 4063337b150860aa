-- ===== src/Engine/History.antt =====
-- The logs that run of emergent_engine.py writes through _emit and _decision, and their numbers.
use werewolf_agent.Engine.Exec.Keeps.{Keeps-lift}
use werewolf_agent.Engine.Frame.{IsFrame}
use werewolf_agent.Engine.Frame.Play.{run-Keeps}
use werewolf_agent.Engine.Kill.{committed, kill-elim}
use werewolf_agent.Engine.Run.{run}
use werewolf_agent.Engine.State.{
  Board, Game, World, append_turn, charge, decision, draw_from, emit, initial_game, new_decision,
  new_event, record_failure, update_turn,
}
use werewolf_agent.Engine.Turns.{set_last_guarded}
use werewolf_agent.Log.{DecisionEntry, Event}
use werewolf_agent.Prelude.{
  Bool-cases, List, String, [], ap, arith, concat, inl, inr, ltb, map, map-snoc, refl,
  show_padded_three, suc, sym, zero, ℕ, ◌++◌, ◌+◌, ◌∙◌, ◌∷◌, ◌≡◌,
}
use werewolf_agent.Prelude.Result.{index_error, or_raise}
use werewolf_agent.Runtime.Envelope.{target}

-- 1, 2, …, n
pub up_to : ℕ → List ℕ
up_to zero = []
up_to (suc n) = up_to n ++ suc n ∷ []

unfoldable pub event_name : Board → ℕ → String × ℕ
event_name b n = (concat (b.game_id ∷ "_e" ∷ show_padded_three n ∷ []), n)

unfoldable pub decision_name : Board → ℕ → String
decision_name b n = concat (b.game_id ∷ "_d" ∷ show_padded_three n ∷ [])

-- The events carry the numbers from 1 on, without a gap, with the ids that belong to them; the
-- decisions carry the ids of the numbers from 1 on.
pub record IsNumbered (b : Board) (g : Game) : Type 0 where
  pub events_named :
      map (λ (e : Event). (e.event_id, e.sequence)) g.events ≡ map (event_name b) (up_to g.seq)
  pub decisions_named :
      map (λ (d : DecisionEntry). d.decision_id) g.decisions
      ≡ map (decision_name b) (up_to g.d_counter)

one_more :
    {A B : Type 0} (f : A → B) (name : ℕ → B) (xs : List A) (x : A) (n : ℕ)
    → map f xs ≡ map name (up_to n)
    → f x ≡ name (n + 1)
    → map f (xs ++ x ∷ []) ≡ map name (up_to (n + 1))
unfolding up_to
one_more f name xs x n h e =
    let next : n + 1 ≡ suc n = omega arith in
    map-snoc f xs x
    ∙ ap (λ ys. ys ++ f x ∷ []) h
    ∙ ap (λ y. map name (up_to n) ++ y ∷ []) (e ∙ ap name next)
    ∙ sym (map-snoc name (up_to n) (suc n))
    ∙ ap (λ k. map name (up_to k)) (sym next)

module _ (b : Board) where
  pub After : Game → Game → Type 0
  After g h = IsNumbered b g → IsNumbered b h

  emit-IsNumbered :
      (phase : String) (rnd : ℕ) (etype actor target visibility summary : String) (g : Game)
      → IsNumbered b g
      → IsNumbered b (emit b phase rnd etype actor target visibility summary g).1
  unfolding emit event_name
  emit-IsNumbered phase rnd etype actor target visibility summary g h = record {
    events_named =
        one_more (λ e. (e.event_id, e.sequence)) (event_name b) g.events
          (new_event b (g.seq + 1) rnd phase etype actor target visibility summary) g.seq
          h.events_named refl;
    decisions_named = h.decisions_named;
  }

  same :
      {g k : Game}
      → k.events ≡ g.events
      → k.seq ≡ g.seq
      → k.decisions ≡ g.decisions
      → k.d_counter ≡ g.d_counter
      → IsNumbered b g
      → IsNumbered b k
  same e s d c h = record {
    events_named = rw (e, s) h.events_named;
    decisions_named = rw (d, c) h.decisions_named;
  }

  numbered : IsFrame b After
  unfolding After charge decision record_failure append_turn update_turn draw_from set_last_guarded
      decision_name
  numbered = record {
    stay = λ g h. h;
    join = λ f g k s t h. t (s h);
    charges = record {
      at = λ g. elim (Bool-cases (ltb b.max_requests (g.used + 1))) [
        | inl e ↦ rw e (same refl refl refl refl)
        | inr e ↦ rw e (same refl refl refl refl)
      ];
    };
    emits = λ phase rnd etype actor target visibility summary q. record {
      at = λ g h. emit-IsNumbered phase rnd etype actor target visibility summary g h;
    };
    decides = λ d rnd request_id. record {
      at = λ g h. record {
        events_named = h.events_named;
        decisions_named =
            one_more (λ e. e.decision_id) (decision_name b) g.decisions
              (new_decision b (g.d_counter + 1) d rnd request_id) g.d_counter h.decisions_named
              refl;
      };
    };
    fails = λ rnd phase actor kind reason target. record { at = λ g. same refl refl refl refl };
    appends = λ t. record { at = λ g. same refl refl refl refl };
    updates = λ f. record { at = λ g. same refl refl refl refl };
    draws = λ world over. record {
      at = λ g h.
          (Keeps-lift {R = After} (λ g h. h) (or_raise (index_error "draw") _)).at _
            (same refl refl refl refl h);
    };
    guards = λ t. record { at = λ g. same refl refl refl refl };
    kills = λ phase rnd etype pid summary d. record {
      at = λ g h.
          kill-elim b phase rnd etype pid summary g (IsNumbered b) (λ e. same refl refl refl refl h)
            (λ e.
              emit-IsNumbered phase rnd etype "system" pid "all" summary (committed pid g)
                (same refl refl refl refl h));
    };
  }

  -- However a game ends, by a result or by an exception, its events are numbered 1, 2, … without a
  -- gap and named after their numbers, and so are its decisions.
  pub run-IsNumbered : (world : World) → IsNumbered b (run world b (initial_game b)).1
  unfolding After initial_game up_to
  run-IsNumbered world =
      run-Keeps world b numbered (initial_game b)
        (record { events_named = refl; decisions_named = refl })
