-- ===== src/Visibility/Witness.antt =====
-- The rule of role_visibility.py beside that of observer_projection.py.
use werewolf_agent.Log.{Event, Player}
use werewolf_agent.Prelude.{
  All, All-elem, Bool, List, String, [], arith, elem, eq_iff, false, get, refl, some, string_eq,
  true, ◌==◌, ◌||◌, ◌∷◌, ◌≡◌,
}
use werewolf_agent.Visibility.Engine.{public_visibilities, sees_privately}
use werewolf_agent.Visibility.Observer.{SeatIndex, entitled, trusted_source, visible_to_role}

-- the visibilities with which the engine emits its events
abbrev pub engine_visibilities : List String
engine_visibilities = "public" ∷ "all" ∷ "seer" ∷ "witch" ∷ "guard" ∷ "werewolf_team" ∷ []

-- what the engine shows to a seat: its public and its private events
abbrev pub engine_shows : Player → String → Bool
engine_shows p v = elem v public_visibilities || sees_privately p.role (some p.team) v

-- The seat index has the player, backed by the trusted source.
abbrev pub IsSeated : SeatIndex → Player → Type 0
IsSeated seats p =
    get seats p.player_id
    ≡ some (record {
      role = p.role;
      team = p.team;
      role_source = trusted_source;
      team_source = trusted_source;
    })

abbrev Agrees : Player → SeatIndex → String → Type 0
Agrees p seats v = (visible_to_role seats p.player_id v).0 ≡ engine_shows p v

agreement :
    (p : Player) (seats : SeatIndex)
    → IsSeated seats p
    → (p.role == "werewolf_team") ≡ false
    → All (Agrees p seats) engine_visibilities
unfolding visible_to_role sees_privately
agreement p seats h named = (
  refl,
  (
    refl,
    (
      rw h (ground (arith, eq_iff p.role "seer", eq_iff "seer" p.role)),
      (
        rw h (ground (arith, eq_iff p.role "witch", eq_iff "witch" p.role)),
        (
          rw h (ground (arith, eq_iff p.role "guard", eq_iff "guard" p.role)),
          (
            rw h (
                ground
                  (arith, named, eq_iff p.role "werewolf_team", eq_iff "werewolf_team" p.role)),
            tt,
          ),
        ),
      ),
    ),
  ),
)

-- For a seat that the seat index backs by the trusted source, and an event with one of the
-- visibilities that the engine uses, the observer's rule lets the seat see the event exactly if the
-- engine's rule does. The role must not be spelled like the wolf channel.
pub entitled-eq-engine_shows :
    (p : Player) (seats : SeatIndex) (e : Event)
    → IsSeated seats p
    → (p.role == "werewolf_team") ≡ false
    → elem e.visibility engine_visibilities ≡ true
    → entitled p.player_id e seats ≡ engine_shows p e.visibility
unfolding entitled
entitled-eq-engine_shows p seats e h named known =
    All-elem (Agrees p seats) e.visibility engine_visibilities (agreement p seats h named) known
