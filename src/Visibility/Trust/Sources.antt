-- ===== src/Visibility/Trust/Sources.antt =====
-- Where what build_seat_role_index of observer_trust_index.py trusts comes from.
use mathlib.Core.List.{Memᴰ}
use mathlib.Core.List.Memᴰ.{head, tail}
use mathlib.Core.Path.{subst}
use werewolf_agent.Prelude.{
  Bool-cases, Dict, List, Option, String, [], ap, eq_iff, false, get, get-put, inl, inr, none, put,
  refl, some, sorted, str_leb, string_eq, sym, true, ◌==◌, ◌∙◌, ◌∷◌, ◌≡◌, ◌⊎◌,
}
use werewolf_agent.Visibility.Projection.{TrustEntry, is_trusted, or_unknown}
use werewolf_agent.Visibility.Trust.{
  RoleSnapshot, Snapshot, all_player_ids, build_seat_role_index, entries, entry_of,
  find_in_god_snaps, god_snaps, god_view_of, later_of, not_before, other_snapshot, role_projection,
  role_snaps, snap_order, told_by,
}

-- one of the snapshots is the player's own
pub record IsOwn (snapshots : List Snapshot) (pid : String) (s : RoleSnapshot) : Type 0 where
  pub stands : Memᴰ (role_projection s) snapshots
  pub own : s.player_id ≡ pid

-- every kept snapshot stands in the list, under the id of its player
abbrev Backs : List Snapshot → Dict String RoleSnapshot → Type 0
Backs snapshots kept =
    (pid : String) (s : RoleSnapshot) → get kept pid ≡ some s → IsOwn snapshots pid s

later_of-cases :
    (s : RoleSnapshot) (o : Option RoleSnapshot)
    → (later_of s o ≡ s) ⊎ ((prev : RoleSnapshot) × (o ≡ some prev) × (later_of s o ≡ prev))
unfolding later_of
later_of-cases s none = inl refl
later_of-cases s (some prev) =
    elim (Bool-cases (not_before (snap_order s.round s.phase) (snap_order prev.round prev.phase))) [
      | inl h ↦ inl (rw h refl)
      | inr h ↦ inr (prev, refl, rw h refl)
    ]

some_inj : {A : Type 0} {a b : A} → some a ≡ some b → a ≡ b
some_inj {a = a} e = ap (λ o. elim o [ none ↦ a | some x ↦ x ]) e

module _ (all : List Snapshot) where
  later_of-IsOwn :
      (s t : RoleSnapshot) (kept : Dict String RoleSnapshot)
      → Memᴰ (role_projection s) all
      → Backs all kept
      → later_of s (get kept s.player_id) ≡ t
      → IsOwn all s.player_id t
  later_of-IsOwn s t kept m h e = elim (later_of-cases s (get kept s.player_id)) [
    | inl q ↦ subst (λ r. IsOwn all s.player_id r) (sym q ∙ e) (record { stands = m; own = refl })
    | inr (prev, found, q) ↦
        subst (λ r. IsOwn all s.player_id r) (sym q ∙ e) (h s.player_id prev found)
  ]

  put-Backs :
      (s : RoleSnapshot) (kept : Dict String RoleSnapshot)
      → Memᴰ (role_projection s) all
      → Backs all kept
      → Backs all (put kept s.player_id (later_of s (get kept s.player_id)))
  put-Backs s kept m h pid t e =
      let last = later_of s (get kept s.player_id) in
      let there = sym (get-put kept s.player_id pid last) ∙ e in
      elim (Bool-cases (s.player_id == pid)) [
        | inl equal ↦
            subst (λ q. IsOwn all q t) ((eq_iff s.player_id pid).0 equal)
              (later_of-IsOwn s t kept m h (some_inj (rw equal at there)))
        | inr other ↦ h pid t (rw other at there)
      ]

  role_snaps-Backs :
      (snapshots : List Snapshot) (kept : Dict String RoleSnapshot)
      → ((x : Snapshot) → Memᴰ x snapshots → Memᴰ x all)
      → Backs all kept
      → Backs all (role_snaps snapshots kept)
  unfolding role_snaps
  role_snaps-Backs [] kept sub h = h
  role_snaps-Backs (role_projection s ∷ snapshots) kept sub h =
      let new = put kept s.player_id (later_of s (get kept s.player_id)) in
      elim (Bool-cases (s.player_id == "")) [
        | inl e ↦ rw e (role_snaps-Backs snapshots kept (λ x m. sub x (tail m)) h)
        | inr e ↦ rw e (
            role_snaps-Backs snapshots new (λ x m. sub x (tail m))
              (put-Backs s kept (sub (role_projection s) (head refl)) h))
      ]
  role_snaps-Backs (god_view_of s ∷ snapshots) kept sub h =
      role_snaps-Backs snapshots kept (λ x m. sub x (tail m)) h
  role_snaps-Backs (other_snapshot ∷ snapshots) kept sub h =
      role_snaps-Backs snapshots kept (λ x m. sub x (tail m)) h

get-entries :
    (snapshots : List Snapshot) (pids : List String) (pid : String) (e : TrustEntry)
    → get (entries snapshots pids) pid ≡ some e
    → entry_of (god_snaps snapshots) pid (get (role_snaps snapshots []) pid) ≡ e
unfolding entries
get-entries snapshots [] pid e h = cc
get-entries snapshots (q ∷ pids) pid e h = elim (Bool-cases (q == pid)) [
  | inl equal ↦ some_inj (sym (entry-here equal) ∙ h)
  | inr other ↦ get-entries snapshots pids pid e (rw other at h)
]
  where
    entry-here :
        (q == pid) ≡ true
        → get (entries snapshots (q ∷ pids)) pid
          ≡ some (entry_of (god_snaps snapshots) pid (get (role_snaps snapshots []) pid))
    entry-here equal = rw (equal, (eq_iff q pid).0 equal) refl

-- the source of a role or a team that no own snapshot tells
told_by-untrusted : (o : Option String) → is_trusted (told_by o).1 ≡ false
unfolding told_by
told_by-untrusted none = refl
told_by-untrusted (some value) = refl

-- what a trusted entry says is what an own snapshot says
abbrev pub IsBacked : List Snapshot → String → TrustEntry → Type 0
IsBacked snapshots pid e =
    (s : RoleSnapshot) × IsOwn snapshots pid s
    × (e.role ≡ some (or_unknown s.role))
    × (e.team ≡ some (or_unknown s.team))
    × (is_trusted e.team_source ≡ true)

entry_of-IsBacked :
    (snapshots : List Snapshot) (pid : String) (o : Option RoleSnapshot)
    → ((s : RoleSnapshot) → o ≡ some s → IsOwn snapshots pid s)
    → is_trusted (entry_of (god_snaps snapshots) pid o).role_source ≡ true
    → IsBacked snapshots pid (entry_of (god_snaps snapshots) pid o)
unfolding entry_of
entry_of-IsBacked snapshots pid none h t =
    cc (t, told_by-untrusted (find_in_god_snaps (λ p. p.role) pid (god_snaps snapshots)))
entry_of-IsBacked snapshots pid (some s) h t = (s, h s refl, refl, refl, refl)

-- In the index of any snapshots, an entry whose role is trusted has the role and the team of a
-- role_projection snapshot of that player that is among them, and its team is trusted too.
pub trusted-IsBacked :
    (snapshots : List Snapshot) (pid : String) (e : TrustEntry)
    → get (build_seat_role_index snapshots) pid ≡ some e
    → is_trusted e.role_source ≡ true
    → IsBacked snapshots pid e
unfolding build_seat_role_index
trusted-IsBacked snapshots pid e h t =
    let entry = get-entries snapshots (sorted str_leb (all_player_ids snapshots)) pid e h in
    let backs : Backs snapshots (role_snaps snapshots []) =
      role_snaps-Backs snapshots snapshots [] (λ x m. m) (λ q s k. cc) in
    subst (IsBacked snapshots pid) entry
      (entry_of-IsBacked snapshots pid (get (role_snaps snapshots []) pid) (backs pid) (rw entry t))
