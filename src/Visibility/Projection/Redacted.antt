-- ===== src/Visibility/Projection/Redacted.antt =====
-- What a projection of observer_projection.py depends on.
use werewolf_agent.Prelude.{
  Bool, Bool-cases, Dict, List, Option, String, [], ap, arith, eq_iff, eq_self, false, get,
  if◌then◌else◌, inl, inr, keys, map, none, refl, some, sorted, str_leb, string_eq, sym, true, ◌&&◌,
  ◌==◌, ◌∙◌, ◌∷◌, ◌≡◌,
}
use werewolf_agent.Runtime.Ruleset.{enter_role, enter_roles, enter_rulesets, known_role_teams}
use werewolf_agent.Visibility.Observer.{Perspective, god, public, seat_role, team_werewolf}
use werewolf_agent.Visibility.Projection.{
  TrustEntry, TrustIndex, bare_entry, both_trusted, build_player_projection, god_view,
  infer_player_ids, is_trusted, is_werewolf_role, known_role, known_teams, or_unknown, other_view,
  own_view, player_view, public_view, seat_of, seat_view, team_view,
}

-- without the role, the team and what the player knows of the others
abbrev pub hide : TrustEntry → TrustEntry
hide e = record e { role = none; team = none; projected_known_roles = none }

-- a role of the wolf team is not told
abbrev pub mask : String → String
mask role = if is_werewolf_role role then "unknown" else role

abbrev pub masked : Dict String String → Dict String String
masked roles = map (λ entry. (entry.0, mask entry.1)) roles

abbrev pub masked_roles : Option (Dict String String) → Option (Dict String String)
masked_roles none = none
masked_roles (some roles) = some (masked roles)

-- role and team only where the player's own snapshot tells them
abbrev pub trusted_only : TrustEntry → TrustEntry
trusted_only e = record e {
  role = if is_trusted e.role_source then e.role else none;
  team = if is_trusted e.team_source then e.team else none;
  projected_known_roles = masked_roles e.projected_known_roles;
}

-- What a perspective is entitled to know of the player `pid`: god everything, the public no role and
-- no team, a seat its own by its own snapshot, the wolf team its members by theirs.
unfoldable pub redact : Perspective → (pid : String) → TrustEntry → TrustEntry
redact god pid e = e
redact public pid e = hide e
redact (seat_role p) pid e = if pid == p then trusted_only e else hide e
redact team_werewolf pid e = if both_trusted e && or_unknown e.team == "werewolf" then e else hide e

unfoldable pub redacted : Perspective → TrustIndex → TrustIndex
unfolding redact
redacted p index = map (λ entry. (entry.0, redact p entry.0 entry.1)) index

keys-redacted : (p : Perspective) (index : TrustIndex) → keys (redacted p index) ≡ keys index
unfolding redacted
keys-redacted p [] = refl
keys-redacted p ((k, e) ∷ index) = ap (λ ks. k ∷ ks) (keys-redacted p index)

infer_player_ids-redacted :
    (p : Perspective) (index : TrustIndex)
    → infer_player_ids (redacted p index) ≡ infer_player_ids index
unfolding redacted
infer_player_ids-redacted p [] = refl
infer_player_ids-redacted p (entry ∷ index) = ap (sorted str_leb) (keys-redacted p (entry ∷ index))

bare-redact : (p : Perspective) (pid : String) → redact p pid bare_entry ≡ bare_entry
unfolding redact
bare-redact god pid = refl
bare-redact public pid = refl
bare-redact (seat_role p) pid = elim (Bool-cases (pid == p)) [
  | inl h ↦ rw h refl
  | inr h ↦ rw h refl
]
bare-redact team_werewolf pid = refl

abbrev pub redact_found : Perspective → String → Option TrustEntry → Option TrustEntry
redact_found p pid none = none
redact_found p pid (some e) = some (redact p pid e)

-- the entry of a player in the redacted index
pub get-redacted :
    (p : Perspective) (index : TrustIndex) (pid : String)
    → get (redacted p index) pid ≡ redact_found p pid (get index pid)
unfolding redacted
get-redacted p [] pid = refl
get-redacted p ((k, e) ∷ index) pid = elim (Bool-cases (k == pid)) [
  | inl h ↦ rw (h, (eq_iff k pid).0 h) refl
  | inr h ↦ rw h (get-redacted p index pid)
]

abbrev or_bare : Option TrustEntry → TrustEntry
or_bare o = elim o [ none ↦ bare_entry | some e ↦ e ]

or_bare-redact_found :
    (p : Perspective) (pid : String) (o : Option TrustEntry)
    → or_bare (redact_found p pid o) ≡ redact p pid (or_bare o)
or_bare-redact_found p pid none = sym (bare-redact p pid)
or_bare-redact_found p pid (some e) = refl

seat_of-redacted :
    (p : Perspective) (index : TrustIndex) (pid : String)
    → seat_of (redacted p index) pid ≡ redact p pid (seat_of index pid)
seat_of-redacted p index pid =
    ap or_bare (get-redacted p index pid) ∙ or_bare-redact_found p pid (get index pid)

abbrev mask_found : Option String → Option String
mask_found none = none
mask_found (some role) = some (mask role)

get-masked :
    (roles : Dict String String) (pid : String)
    → get (masked roles) pid ≡ mask_found (get roles pid)
get-masked [] pid = refl
get-masked ((k, role) ∷ roles) pid = elim (Bool-cases (k == pid)) [
  | inl h ↦ rw h refl
  | inr h ↦ rw h (get-masked roles pid)
]

or_unknown-mask_found : (o : Option String) → or_unknown (mask_found o) ≡ mask (or_unknown o)
unfolding is_werewolf_role known_teams known_role_teams enter_rulesets enter_roles enter_role
or_unknown-mask_found none = refl
or_unknown-mask_found (some role) = refl

known_role-masked :
    (roles : Option (Dict String String)) (pid : String)
    → known_role (masked_roles roles) pid ≡ mask (known_role roles pid)
unfolding is_werewolf_role known_teams known_role_teams enter_rulesets enter_roles enter_role
known_role-masked none pid = refl
known_role-masked (some roles) pid =
    ap or_unknown (get-masked roles pid) ∙ or_unknown-mask_found (get roles pid)

own_view-redact : (pid : String) (e : TrustEntry) → own_view pid (trusted_only e) ≡ own_view pid e
unfolding own_view
own_view-redact pid e = elim (Bool-cases (is_trusted e.role_source)) [
  | inl r ↦ elim (Bool-cases (is_trusted e.team_source)) [
    | inl t ↦ rw (r, t) refl
    | inr t ↦ rw (r, t) refl
  ]
  | inr r ↦ elim (Bool-cases (is_trusted e.team_source)) [
    | inl t ↦ rw (r, t) refl
    | inr t ↦ rw (r, t) refl
  ]
]

mask_plain : (role : String) → is_werewolf_role role ≡ false → mask role ≡ role
mask_plain role h = rw h refl

other_view-mask :
    (role pid : String) (e : TrustEntry)
    → other_view (mask role) pid (hide e) ≡ other_view role pid e
unfolding other_view
other_view-mask role pid e = elim (Bool-cases (is_werewolf_role role)) [
  | inl h ↦ elim (Bool-cases (role == "unknown")) [
    | inl k ↦ rw (h, k) refl
    | inr k ↦ rw (h, k) refl
  ]
  | inr h ↦ ap (λ r. other_view r pid (hide e)) (mask_plain role h)
]

abbrev is_member : TrustEntry → Bool
is_member e = both_trusted e && or_unknown e.team == "werewolf"

team_keeps : (pid : String) (e : TrustEntry) → is_member e ≡ true → redact team_werewolf pid e ≡ e
unfolding redact
team_keeps pid e h = rw h refl

team_hides :
    (pid : String) (e : TrustEntry) → is_member e ≡ false → redact team_werewolf pid e ≡ hide e
unfolding redact
team_hides pid e h = rw h refl

team_view-hide :
    (pid : String) (e : TrustEntry) → is_member e ≡ false → team_view pid (hide e) ≡ team_view pid e
unfolding team_view
team_view-hide pid e h = elim (Bool-cases (both_trusted e)) [
  | inl t ↦
      let other : (or_unknown e.team == "werewolf") ≡ false = ground (arith, h, t) in
      rw (t, other) refl
  | inr t ↦ rw t refl
]

team_view-redact :
    (pid : String) (e : TrustEntry) → team_view pid (redact team_werewolf pid e) ≡ team_view pid e
team_view-redact pid e = elim (Bool-cases (is_member e)) [
  | inl h ↦ ap (team_view pid) (team_keeps pid e h)
  | inr h ↦ ap (team_view pid) (team_hides pid e h) ∙ team_view-hide pid e h
]

seat_view-redact :
    (p : String) (self_entry : TrustEntry) (pid : String) (e : TrustEntry)
    → seat_view p (trusted_only self_entry) pid (redact (seat_role p) pid e)
      ≡ seat_view p self_entry pid e
unfolding seat_view redact
seat_view-redact p self_entry pid e = elim (Bool-cases (pid == p)) [
  | inl h ↦ rw h (own_view-redact pid e)
  | inr h ↦
      rw (h, known_role-masked self_entry.projected_known_roles pid)
        (other_view-mask (known_role self_entry.projected_known_roles pid) pid e)
]

pub own-redact : (p : String) (e : TrustEntry) → redact (seat_role p) p e ≡ trusted_only e
unfolding redact
own-redact p e = rw (eq_self p) refl

player_view-redacted :
    (p : Perspective) (index : TrustIndex) (pid : String)
    → player_view (redacted p index) p pid ≡ player_view index p pid
unfolding player_view redact public_view
player_view-redacted god index pid = ap (god_view pid) (seat_of-redacted god index pid)
player_view-redacted public index pid = ap (public_view pid) (seat_of-redacted public index pid)
player_view-redacted (seat_role p) index pid =
    rw
      (
        seat_of-redacted (seat_role p) index pid,
        seat_of-redacted (seat_role p) index p,
        own-redact p (seat_of index p),
      )
      (seat_view-redact p (seat_of index p) pid (seat_of index pid))
player_view-redacted team_werewolf index pid =
    ap (team_view pid) (seat_of-redacted team_werewolf index pid)
    ∙ team_view-redact pid (seat_of index pid)

map-same {ℓ κ} :
    {A : Type ℓ} {B : Type κ} (f g : A → B) (xs : List A)
    → ((x : A) → f x ≡ g x)
    → map f xs ≡ map g xs
map-same f g [] h = refl
map-same f g (x ∷ xs) h = rw (h x, map-same f g xs h) refl

pub players-redacted :
    (p : Perspective) (index : TrustIndex)
    → build_player_projection (redacted p index) p ≡ build_player_projection index p
unfolding build_player_projection
players-redacted p index =
    ap (map (player_view (redacted p index) p)) (infer_player_ids-redacted p index)
    ∙ map-same (player_view (redacted p index) p) (player_view index p) (infer_player_ids index)
        (player_view-redacted p index)
