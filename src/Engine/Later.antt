-- ===== src/Engine/Later.antt =====
-- What run of emergent_engine.py takes back of the living and of the events.
use werewolf_agent.Engine.Exec.Keeps.{Keeps-lift}
use werewolf_agent.Engine.Frame.{IsFrame}
use werewolf_agent.Engine.Frame.Play.{run-Keeps}
use werewolf_agent.Engine.Hunter.{kill}
use werewolf_agent.Engine.Kill.{kill-elim}
use werewolf_agent.Engine.Run.{run}
use werewolf_agent.Engine.State.{
  Board, Game, World, append_turn, charge, decision, draw_from, emit, new_event, record_failure,
  update_turn,
}
use werewolf_agent.Engine.Turns.{set_last_guarded}
use werewolf_agent.Log.{Event}
use werewolf_agent.Prelude.{
  append-nil, append_assoc, Bool-cases, List, String, [], ap, arith, elem, elem-filter, inl, inr,
  ltb, not, refl, string_eq, sym, true, ℕ, ◌++◌, ◌+◌, ◌==◌, ◌∙◌, ◌∷◌, ◌≡◌,
}
use werewolf_agent.Prelude.Result.{index_error, or_raise}

-- Nobody comes back to life, and what is written of the events stays.
pub record IsLater (g h : Game) : Type 0 where
  pub dead_stay : (p : String) → elem p h.alive ≡ true → elem p g.alive ≡ true
  pub news : List Event
  pub kept : h.events ≡ g.events ++ news

-- a draw leaves all but the number of draws
drawn :
    {A : Type 0} (field : Game → A) (world : World) (over : List String) (g : Game)
    → field (record g { draws = g.draws + 1 }) ≡ field g
    → field (draw_from world over g).1 ≡ field g
unfolding draw_from
drawn field world over g h =
    (Keeps-lift {R = λ s t. field s ≡ field g → field t ≡ field g} (λ s k. k)
        (or_raise (index_error "draw") _)).at
      _ h

module _ (b : Board) where
  same : {g h : Game} → h.events ≡ g.events → h.alive ≡ g.alive → IsLater g h
  same {g = g} e a = record {
    dead_stay = λ p. rw a (λ k. k);
    news = [];
    kept = e ∙ sym (append-nil g.events);
  }

  kill-IsLater :
      (phase : String) (rnd : ℕ) (etype pid summary : String) (g : Game)
      → IsLater g (kill b phase rnd etype pid summary g).1
  unfolding emit
  kill-IsLater phase rnd etype pid summary g =
      kill-elim b phase rnd etype pid summary g (IsLater g)
        (λ again. record {
          dead_stay = λ p k. ground (arith, elem-filter (λ q. not (q == pid)) p g.alive);
          news = [];
          kept = sym (append-nil g.events);
        })
        (λ first. record {
          dead_stay = λ p k. ground (arith, elem-filter (λ q. not (q == pid)) p g.alive);
          news = new_event b (g.seq + 1) rnd phase etype "system" pid "all" summary ∷ [];
          kept = refl;
        })

  later : IsFrame b IsLater
  unfolding emit charge decision record_failure append_turn update_turn draw_from set_last_guarded
  later = record {
    stay = λ g. same refl refl;
    join = λ f g h s t. record {
      dead_stay = λ p k. s.dead_stay p (t.dead_stay p k);
      news = s.news ++ t.news;
      kept = t.kept ∙ ap (λ events. events ++ t.news) s.kept ∙ append_assoc f.events s.news t.news;
    };
    charges = record {
      at = λ g. elim (Bool-cases (ltb b.max_requests (g.used + 1))) [
        | inl e ↦ rw e (same refl refl)
        | inr e ↦ rw e (same refl refl)
      ];
    };
    emits = λ phase rnd etype actor target visibility summary q. record {
      at = λ g. record {
        dead_stay = λ p k. k;
        news = new_event b (g.seq + 1) rnd phase etype actor target visibility summary ∷ [];
        kept = refl;
      };
    };
    decides = λ d rnd request_id. record { at = λ g. same refl refl };
    fails = λ rnd phase actor kind reason target. record { at = λ g. same refl refl };
    appends = λ t. record { at = λ g. same refl refl };
    updates = λ f. record { at = λ g. same refl refl };
    draws = λ world over. record {
      at = λ g.
          same (drawn (λ h. h.events) world over g refl) (drawn (λ h. h.alive) world over g refl);
    };
    guards = λ t. record { at = λ g. same refl refl };
    kills = λ phase rnd etype pid summary d. record {
      at = λ g. kill-IsLater phase rnd etype pid summary g;
    };
  }

  -- From any state on, and however the game ends, nobody who is dead comes back to life, and the
  -- events written so far stay as they are, with the new ones behind them.
  pub run-IsLater : (world : World) (g : Game) → IsLater g (run world b g).1
  run-IsLater world g = run-Keeps world b later g
