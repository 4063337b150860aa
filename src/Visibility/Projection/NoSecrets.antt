-- ===== src/Visibility/Projection/NoSecrets.antt =====
-- What a projection of observer_projection.py gives away: players, events and the proof section.
use werewolf_agent.Log.{Event}
use werewolf_agent.Prelude.{
  Bool-cases, List, Option, String, [], any, ap, get, inl, inr, none, refl, some, string_eq, sym,
  true, ◌&&◌, ◌==◌, ◌∙◌, ◌∷◌, ◌≡◌,
}
use werewolf_agent.Visibility.Observer.{
  Perspective, SeatEntry, event_visible_in_projection, god, public, seat_role, team_werewolf,
  trusted_role, trusted_role_for_player, trusted_team, trusted_team_for_player, visible_to_role,
}
use werewolf_agent.Visibility.Projection.{
  TrustEntry, TrustIndex, both_trusted, build_player_projection, is_trusted, or_unknown,
}
use werewolf_agent.Visibility.Projection.Events.{
  EventProjection, build_proof, enter_visible, project_events, project_from, seat_index_of,
  self_part, self_proof, trusted_part,
}
use werewolf_agent.Visibility.Projection.Redacted.{
  get-redacted, own-redact, players-redacted, redact, redact_found, redacted,
}

-- where the own snapshot tells a role, it tells the team
abbrev pub IsPaired : TrustIndex → Type 0
IsPaired index =
    (pid : String) (e : TrustEntry)
    → get index pid ≡ some e
    → is_trusted e.role_source ≡ true
    → is_trusted e.team_source ≡ true

abbrev part_of : Option TrustEntry → Option SeatEntry
part_of none = none
part_of (some e) = some (trusted_part e)

get-seat_index_of :
    (index : TrustIndex) (pid : String) → get (seat_index_of index) pid ≡ part_of (get index pid)
get-seat_index_of [] pid = refl
get-seat_index_of ((k, e) ∷ index) pid = elim (Bool-cases (k == pid)) [
  | inl h ↦ rw h refl
  | inr h ↦ rw h (get-seat_index_of index pid)
]

found-trusted_role :
    (p : String) (o : Option TrustEntry)
    → trusted_role (part_of (redact_found (seat_role p) p o)) ≡ trusted_role (part_of o)
unfolding trusted_role
found-trusted_role p none = refl
found-trusted_role p (some e) =
    rw (own-redact p e)
      (elim (Bool-cases (is_trusted e.role_source)) [ inl h ↦ rw h refl | inr h ↦ rw h refl ])

found-trusted_team :
    (p : String) (o : Option TrustEntry)
    → trusted_team (part_of (redact_found (seat_role p) p o)) ≡ trusted_team (part_of o)
unfolding trusted_team
found-trusted_team p none = refl
found-trusted_team p (some e) =
    rw (own-redact p e)
      (elim (Bool-cases (is_trusted e.team_source)) [ inl h ↦ rw h refl | inr h ↦ rw h refl ])

get-redacted_part :
    (p : Perspective) (index : TrustIndex) (pid : String)
    → get (seat_index_of (redacted p index)) pid ≡ part_of (redact_found p pid (get index pid))
get-redacted_part p index pid =
    get-seat_index_of (redacted p index) pid ∙ ap part_of (get-redacted p index pid)

role-redacted :
    (p : String) (index : TrustIndex)
    → trusted_role_for_player (seat_index_of (redacted (seat_role p) index)) p
      ≡ trusted_role_for_player (seat_index_of index) p
unfolding trusted_role_for_player
role-redacted p index =
    ap trusted_role (get-redacted_part (seat_role p) index p)
    ∙ found-trusted_role p (get index p)
    ∙ ap trusted_role (sym (get-seat_index_of index p))

team-redacted :
    (p : String) (index : TrustIndex)
    → trusted_team_for_player (seat_index_of (redacted (seat_role p) index)) p
      ≡ trusted_team_for_player (seat_index_of index) p
unfolding trusted_team_for_player
team-redacted p index =
    ap trusted_team (get-redacted_part (seat_role p) index p)
    ∙ found-trusted_team p (get index p)
    ∙ ap trusted_team (sym (get-seat_index_of index p))

event-redacted :
    (e : Event) (p : Perspective) (index : TrustIndex)
    → event_visible_in_projection e p (seat_index_of (redacted p index))
      ≡ event_visible_in_projection e p (seat_index_of index)
unfolding event_visible_in_projection visible_to_role
event-redacted e god index = refl
event-redacted e public index = refl
event-redacted e (seat_role p) index = rw (role-redacted p index, team-redacted p index) refl
event-redacted e team_werewolf index = refl

from-redacted :
    (events : List Event) (p : Perspective) (index : TrustIndex) (shown : EventProjection)
    → project_from events p (seat_index_of (redacted p index)) shown
      ≡ project_from events p (seat_index_of index) shown
unfolding project_from
from-redacted [] p index shown = refl
from-redacted (e ∷ events) p index shown = rw (event-redacted e p index) (
    from-redacted events p index
      (enter_visible shown e (event_visible_in_projection e p (seat_index_of index))))

redact-role_source :
    (p : Perspective) (pid : String) (e : TrustEntry) → (redact p pid e).role_source ≡ e.role_source
unfolding redact
redact-role_source god pid e = refl
redact-role_source public pid e = refl
redact-role_source (seat_role p) pid e = elim (Bool-cases (pid == p)) [
  | inl h ↦ rw h refl
  | inr h ↦ rw h refl
]
redact-role_source team_werewolf pid e =
    elim (Bool-cases (both_trusted e && or_unknown e.team == "werewolf")) [
      | inl h ↦ rw h refl
      | inr h ↦ rw h refl
    ]

any-redacted :
    (p : Perspective) (index : TrustIndex)
    → any (λ entry. is_trusted entry.1.role_source) (redacted p index)
      ≡ any (λ entry. is_trusted entry.1.role_source) index
unfolding redacted
any-redacted p [] = refl
any-redacted p ((k, e) ∷ index) = rw (redact-role_source p k e, any-redacted p index) refl

found-self_proof :
    (p : String) (o : Option TrustEntry)
    → ((e : TrustEntry)
        → o ≡ some e
        → is_trusted e.role_source ≡ true
        → is_trusted e.team_source ≡ true)
    → self_proof p (redact_found (seat_role p) p o) ≡ self_proof p o
unfolding self_proof
found-self_proof p none h = refl
found-self_proof p (some e) h = rw (own-redact p e) (elim (Bool-cases (is_trusted e.role_source)) [
  | inl k ↦ rw (k, h e refl k) refl
  | inr k ↦ rw k refl
])

self-redacted :
    (p : Perspective) (index : TrustIndex)
    → IsPaired index
    → self_part (redacted p index) p ≡ self_part index p
unfolding self_part
self-redacted god index h = refl
self-redacted public index h = refl
self-redacted (seat_role p) index h =
    ap (self_proof p) (get-redacted (seat_role p) index p)
    ∙ found-self_proof p (get index p) (λ e. h p e)
self-redacted team_werewolf index h = refl

proof-redacted :
    (p : Perspective) (index : TrustIndex)
    → IsPaired index
    → build_proof (redacted p index) p ≡ build_proof index p
unfolding build_proof
proof-redacted p index h = rw (any-redacted p index, self-redacted p index h) refl

-- A perspective is shown the same of an index and of what it is entitled to know of the index: the
-- players and the events in every case, the proof section where a trusted role comes with a trusted
-- team.
pub projection-redacted :
    (events : List Event) (p : Perspective) (index : TrustIndex)
    → (build_player_projection (redacted p index) p ≡ build_player_projection index p)
      × (project_events events p (redacted p index) ≡ project_events events p index)
      × (IsPaired index → build_proof (redacted p index) p ≡ build_proof index p)
unfolding project_events
projection-redacted events p index =
    (players-redacted p index, from-redacted events p index _, proof-redacted p index)
