-- ===== src/Runtime/Triggers.antt =====
-- action_runtime/triggers.py: the death queue. Each death may enqueue more; a player is processed
-- at most once.
pub mod Chain
pub mod Seats
pub mod Order
use werewolf_agent.Prelude.{
  Bool, Dict, List, Option, String, [], elem, eqb, false, filter, get, get_default, if◌then◌else◌,
  leb, length, ltb, none, not, some, sorted, str_leb, string_eq, suc, true, zero, ℕ, ◌&&◌, ◌++◌,
  ◌+◌, ◌==◌, ◌||◌, ◌∷◌,
}
use werewolf_agent.Runtime.State.{RuntimeState}

-- (state, dead player) -> new deaths to enqueue
abbrev pub DeathTrigger : Type 0
DeathTrigger = RuntimeState → String → List String

pub record TriggerSystem : Type 0 where
  pub triggers : Dict String DeathTrigger
  pub seat_order : List String

-- `index` of the first occurrence, or the length
unfoldable pub index_or_length : String → List String → ℕ
index_or_length pid [] = 0
index_or_length pid (s ∷ seats) = if s == pid then 0 else suc (index_or_length pid seats)

unfoldable pub seat_index : TriggerSystem → String → ℕ
unfolding index_or_length
seat_index t pid = index_or_length pid t.seat_order

-- sorted by seat
unfoldable pub by_seat : TriggerSystem → String → String → Bool
unfolding seat_index
by_seat t p q = leb (seat_index t p) (seat_index t q)

-- sorted by (seat, id)
unfoldable pub by_seat_and_id : TriggerSystem → String → String → Bool
unfolding seat_index
by_seat_and_id t p q =
    ltb (seat_index t p) (seat_index t q) || eqb (seat_index t p) (seat_index t q) && str_leb p q

-- the handler of a dead player's role
unfoldable pub handler_of : TriggerSystem → RuntimeState → String → Option DeathTrigger
handler_of t state dead = get t.triggers (get_default state.roles dead "")

-- what a handler adds to the queue: the living players that are not processed
unfoldable pub new_deaths : DeathTrigger → RuntimeState → List String → String → List String
new_deaths handler state seen dead =
    filter (λ d. not (elem d seen) && elem d state.alive) (handler state dead)

-- The queue behind the death `dead`; with no handler it stays as it is.
unfoldable pub requeue :
    TriggerSystem
    → Option DeathTrigger
    → RuntimeState
    → List String
    → String
    → List String
    → List String
unfolding new_deaths by_seat_and_id
requeue t none state seen dead queue = queue
requeue t (some handler) state seen dead queue =
    sorted (by_seat_and_id t) (queue ++ new_deaths handler state seen dead)

unfoldable pub enqueue :
    TriggerSystem → RuntimeState → List String → String → List String → List String
unfolding requeue handler_of
enqueue t state seen dead queue = requeue t (handler_of t state dead) state seen dead queue

-- The loop `while queue`, with fuel for the deaths that may still be processed. `processed` and
-- `seen` hold the same players, so one list, in the order of processing, is both. `none` means that
-- the fuel ran out.
unfoldable pub drain :
    TriggerSystem → RuntimeState → ℕ → (processed queue : List String) → Option (List String)
unfolding enqueue
drain t state fuel processed [] = some processed
drain t state zero processed (dead ∷ queue) = elim (elem dead processed) [
  | true ↦ drain t state zero processed queue
  | false ↦ none
]
drain t state (suc fuel) processed (dead ∷ queue) = elim (elem dead processed) [
  | true ↦ drain t state (suc fuel) processed queue
  | false ↦
      drain t state fuel (processed ++ dead ∷ [])
        (enqueue t state (processed ++ dead ∷ []) dead queue)
]

unfoldable pub resolve : TriggerSystem → List String → RuntimeState → Option (List String)
unfolding drain by_seat
resolve t initial_deaths state =
    drain t state (length initial_deaths + length state.alive) []
      (sorted (by_seat t) initial_deaths)
