-- ===== src/Visibility/Engine.antt =====
-- role_visibility.py: the engine's single rule for the events that a seat sees.
use werewolf_agent.Log.{Event}
use werewolf_agent.Prelude.{
  Bool, List, Option, String, [], elem, filter, map, none, some, string_eq, ◌&&◌, ◌==◌, ◌||◌, ◌∷◌,
}

abbrev pub public_visibilities : List String
public_visibilities = "public" ∷ "all" ∷ []

unfoldable pub public_refs : List Event → List String
public_refs events =
    map (λ e. e.event_id) (filter (λ e. elem e.visibility public_visibilities) events)

-- `team == "werewolf" if team is not None else role == "werewolf"`
unfoldable pub is_wolf_team : String → Option String → Bool
is_wolf_team role none = role == "werewolf"
is_wolf_team role (some team) = team == "werewolf"

unfoldable pub sees_privately : String → Option String → String → Bool
unfolding is_wolf_team
sees_privately role team v =
    v == "all" || v == role || v == "werewolf_team" && is_wolf_team role team

unfoldable pub private_refs_for_role : List Event → String → Option String → List String
unfolding sees_privately
private_refs_for_role events role team =
    map (λ e. e.event_id) (filter (λ e. sees_privately role team e.visibility) events)
