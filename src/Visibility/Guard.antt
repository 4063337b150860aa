-- ===== src/Visibility/Guard.antt =====
-- invariants/guards.py: the two checks that stop a run at once.
use werewolf_agent.Log.{Event}
use werewolf_agent.Prelude.{
  Dict, List, Option, String, [], elem, get, if◌then◌else◌, none, put, some, string_eq, ◌++◌, ◌∷◌,
}
use werewolf_agent.Visibility.Observer.{SeatIndex, entitled}

pub data Leak : Type 0 where
  dangling_source prompt_leak : String → Leak

-- `events_by_id`: of two events with one id the later one
unfoldable pub events_by_id : List Event → Dict String Event → Dict String Event
events_by_id [] d = d
events_by_id (e ∷ events) d = events_by_id events (put d e.event_id e)

unfoldable pub check_source : String → SeatIndex → String → Option Event → Option Leak
check_source seat seats eid none = some (dangling_source eid)
check_source seat seats eid (some e) =
    if entitled seat e seats then none else some (prompt_leak eid)

-- the first of two faults
unfoldable pub first_leak : Option Leak → Option Leak → Option Leak
first_leak none later = later
first_leak (some leak) later = some leak

-- `none` if every source is an event that the seat may see
unfoldable pub assert_prompt_entitled :
    String → List String → Dict String Event → SeatIndex → Option Leak
unfolding check_source first_leak
assert_prompt_entitled seat [] by_id seats = none
assert_prompt_entitled seat (eid ∷ sources) by_id seats =
    first_leak (check_source seat seats eid (get by_id eid))
      (assert_prompt_entitled seat sources by_id seats)

-- the new set of committed deaths, or `none` for a DoubleDeathCommitError
unfoldable pub assert_death_commit_once : String → List String → Option (List String)
assert_death_commit_once pid committed =
    if elem pid committed then none else some (committed ++ pid ∷ [])
