-- ===== src/Checker/Reveals.antt =====
-- check_i7: the players that die, and the roles that are revealed.
use Prim.Native.Char.{code}
use werewolf_agent.Checker.Rows.{InvariantViolation, RunArtifacts, error, is_death_commit}
use werewolf_agent.Log.{Event, Player}
use werewolf_agent.Prelude.{
  Bool, Dict, List, Option, String, [], get, has_key, if◌then◌else◌, is_empty, none, not, put, some,
  string_eq, strip_prefix, ℕ, ◌&&◌, ◌++◌, ◌==◌, ◌∷◌,
}

-- `\w+` at the start of a text
abbrev pub word_of : (is_word : ℕ → Bool) → String → String
word_of is_word String.[] = ""
word_of is_word (String.◌∷◌ c s) =
    let rest = word_of is_word s in if is_word (code c) then String.◌∷◌ c rest else ""

unfoldable pub word_behind : (is_word : ℕ → Bool) → Option String → String
word_behind is_word none = ""
word_behind is_word (some text) = word_of is_word text

-- the first word that stands behind "revealed as ", or ""
unfoldable pub revealed_role : (is_word : ℕ → Bool) → String → String
unfolding word_behind
revealed_role is_word String.[] = ""
revealed_role is_word (String.◌∷◌ c s) =
    let rest = revealed_role is_word s in
    let here = word_behind is_word (strip_prefix "revealed as " (String.◌∷◌ c s)) in
    if here == "" then rest else here

unfoldable pub roles_of : List Player → Dict String String → Dict String String
roles_of [] roles = roles
roles_of (p ∷ players) roles = roles_of players (put roles p.player_id p.role)

unfoldable pub unknown_death : RunArtifacts → Dict String String → Event → List InvariantViolation
unknown_death arts roles e =
    if is_death_commit e && not (is_empty arts.players) && not (has_key roles e.target)
    then error "I7" arts.game_id (e.event_id ∷ []) ("death of unknown player " ∷ e.target ∷ []) ∷ []
    else []

unfoldable pub wrong_reveal :
    RunArtifacts → Event → (revealed : String) → Option String → List InvariantViolation
wrong_reveal arts e revealed none = []
wrong_reveal arts e revealed (some role) =
    if e.type == "role_revealed" && not (revealed == "") && not (revealed == role)
    then error "I7" arts.game_id (e.event_id ∷ [])
        ("role_revealed(" ∷ e.target ∷ "=" ∷ revealed ∷ ") != actual " ∷ role ∷ [])
      ∷ []
    else []

unfoldable pub reveal_faults :
    (is_word : ℕ → Bool) → RunArtifacts → Dict String String → List Event → List InvariantViolation
unfolding unknown_death wrong_reveal revealed_role
reveal_faults is_word arts roles [] = []
reveal_faults is_word arts roles (e ∷ events) =
    unknown_death arts roles e
    ++ wrong_reveal arts e (revealed_role is_word e.summary) (get roles e.target)
    ++ reveal_faults is_word arts roles events

-- `is_word` is the class `\w` of the regular expressions
unfoldable pub check_i7 : (is_word : ℕ → Bool) → RunArtifacts → List InvariantViolation
unfolding reveal_faults roles_of
check_i7 is_word arts = reveal_faults is_word arts (roles_of arts.players []) arts.events
