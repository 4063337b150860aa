-- ===== src/Engine/Day.antt =====
-- `_resolve_speech` and the day of `_run_inner`. The scribe of the prompt versions with a scaffold
-- is not modelled.
use werewolf_agent.Engine.Exec.{gets, pure, ◌>>=◌, ◌>>◌}
use werewolf_agent.Engine.Hunter.{kill, trigger_on_death}
use werewolf_agent.Engine.Night.{cascade_fuel}
use werewolf_agent.Engine.Provider.{build_obs, guard_prompt, new_turn}
use werewolf_agent.Engine.State.{
  Board, M, SpeechReply, World, alive_in_seat_order, append_turn, charge, emit, error_fallback,
  invalid_fallback, live_success, player_of, speech_error, spoken, update_turn,
}
use werewolf_agent.Engine.Turns.{run_vote_round}
use werewolf_agent.Log.{TurnRow}
use werewolf_agent.Prelude.{
  List, Option, String, [], concat, if◌then◌else◌, join, none, some, string_eq, truncate, ℕ, ◌==◌,
  ◌∷◌,
}

abbrev speech_request_phase : String
speech_request_phase = "day_speech"

abbrev speech_empty_placeholder : String
speech_empty_placeholder = "（发言无效）"

abbrev speech_of : World → SpeechReply → String
speech_of world (speech_error reason) = ""
speech_of world (spoken raw) = truncate 200 (world.strip raw)

-- the kind and the reason of a speech turn
speech_row : SpeechReply → (text : String) → TurnRow → TurnRow
speech_row (speech_error reason) text t = record t {
  kind = error_fallback;
  fallback_reason = some (concat ("speech provider error: " ∷ reason ∷ []));
}
speech_row (spoken raw) text t =
    if text == ""
    then record t { kind = invalid_fallback; fallback_reason = some "empty speech text" }
    else record t { kind = live_success }

unfoldable pub resolve_speech : World → Board → (pid : String) → (rnd : ℕ) → M Unit
unfolding charge player_of build_obs new_turn append_turn guard_prompt speech_row update_turn emit
resolve_speech world b pid rnd = do
  charge b
  p ← player_of b pid
  obs ← gets (build_obs b p speech_request_phase rnd)
  sources ← gets (λ g. world.sources obs g.events)
  append_turn (new_turn b "_speech" pid "day" "speech" rnd sources)
  guard_prompt b pid sources
  call ← gets (λ g. g.used)
  let reply = world.speak call obs
  let text = speech_of world reply
  update_turn (speech_row reply text)
  emit b "day" rnd "player_speech" pid "none" "public"
      (if text == "" then speech_empty_placeholder else text)

unfoldable pub speeches : World → Board → (rnd : ℕ) → List String → M Unit
unfolding resolve_speech
speeches world b rnd [] = pure tt
speeches world b rnd (pid ∷ speakers) = do
  resolve_speech world b pid rnd
  speeches world b rnd speakers

announcement : List String → String
announcement [] = "A peaceful night: nobody died."
announcement (d ∷ deaths) = concat ("Night fell: " ∷ join ", " (d ∷ deaths) ∷ " died." ∷ [])

-- The role is looked up first; the source looks it up after the commit of the death, and the player is
-- an entry of the board in both.
unfoldable pub eliminate : World → Board → (rnd : ℕ) → Option String → M Unit
unfolding kill trigger_on_death player_of emit
eliminate world b rnd none = pure tt
eliminate world b rnd (some pid) = do
  p ← player_of b pid
  kill b "day" rnd "player_eliminated" pid (concat (pid ∷ " eliminated by vote." ∷ []))
  emit b "day" rnd "role_revealed" "system" pid "all"
      (concat (pid ∷ " revealed as " ∷ p.role ∷ "." ∷ []))
  fuel ← gets cascade_fuel
  trigger_on_death world b fuel pid rnd "day" "vote"

unfoldable pub run_day : World → Board → (rnd : ℕ) → List String → M Unit
unfolding announcement emit speeches run_vote_round eliminate alive_in_seat_order
run_day world b rnd deaths = do
  emit b "day" rnd "day_announcement" "system" "none" "public" (announcement deaths)
  speakers ← gets (alive_in_seat_order b)
  speeches world b rnd speakers
  eliminated ← run_vote_round world b rnd
  eliminate world b rnd eliminated
