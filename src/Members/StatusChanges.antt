-- ===== src/Members/StatusChanges.antt =====
-- A change of a member's status, and how many administrators and listed ids are left after it.
use ai_api.Base.{
  ℕ, suc, ◌≤◌, ◌≡◌, ◌⊎◌, inl, inr, refl, ap, Bool, true, false, none, some, List, [], ◌∷◌, map,
  filter, length, length-map, arith, All, get, modify, keys-modify, ◌==◌, ==_iff, ◌&&◌, leb,
  not_leb→lt, Bool-cases, Option-cases,
}
use mathlib.Core.Path.{subst}
use ai_api.Base.UniqueKeys.{Distinct, Distinct-filter}
use ai_api.Models.{Instant, Member, MemberStatus}
use ai_api.Allocations.{member_key}
use ai_api.Tags.{contains}
use ai_api.Members.{same_status, set_status, update, is_active_admin}
use ai_api.Members.Tables.{MemberDb, with_members}
use ai_api.Members.Counts.{length-modify_more, absent}
use ai_api.Members.Bulk.{active_admin_ids, discard}
use ai_api.Members.LastAdmin.{IsSafe}

abbrev pub changed : ℕ → MemberStatus → List Member → List Member
changed id status = modify member_key id (λ m. record m { status = status })

pub members-set_status :
    (now : Instant) (id : ℕ) (status : MemberStatus) (db : MemberDb)
    → (set_status now id status db).store.members ≡ changed id status db.store.members
unfolding set_status with_members
members-set_status now id MemberStatus.active db = refl
members-set_status now id MemberStatus.disabled db = refl

-- what `update` does to the members: the member is not there, or has the status, or gets it
pub update-cases :
    (now : Instant) (id : ℕ) (status : MemberStatus) (db : MemberDb)
    → (((update now id (some status) db).0 ≡ none) × ((update now id (some status) db).1 ≡ db))
      ⊎ ((m : Member) × (x : Member) × (get member_key id db.store.members ≡ some m)
          × ((update now id (some status) db).0 ≡ some x)
          × (((same_status status m.status ≡ true) × ((update now id (some status) db).1 ≡ db))
              ⊎ ((update now id (some status) db).1 ≡ set_status now id status db)))
unfolding update
update-cases now id status db = elim (Option-cases (get member_key id db.store.members)) [
  | inl missing ↦ inl (rw (missing, update) refl, rw (missing, update) refl)
  | inr (m, found) ↦ elim (Bool-cases (same_status status m.status)) [
    | inl same ↦
        inr (m, m, found, rw (found, same, update) refl, inl (same, rw (found, same, update) refl))
    | inr differs ↦ inr (
      m,
      record m { status = status },
      found,
      rw (found, differs, update) refl,
      inr (rw (found, differs, update) refl),
    )
  ]
]

-- an administrator is active who is enabled
pub IsSafe-enabled :
    (id : ℕ) (members : List Member)
    → IsSafe members
    → IsSafe (changed id MemberStatus.active members)
IsSafe-enabled id members h = record {
  distinct =
      rw
        (keys-modify member_key id (λ m. record m { status = MemberStatus.active }) members
          (λ m. refl))
        h.distinct;
  remains = omega (
    arith,
    h.remains,
    length-modify_more member_key is_active_admin id
        (λ m. record m { status = MemberStatus.active }) members (λ m k. ground (arith, k)),
  );
}

-- the administrators that are left when one is disabled
pub active_admin_ids-disabled :
    (id : ℕ) (members : List Member)
    → active_admin_ids (changed id MemberStatus.disabled members)
      ≡ discard id (active_admin_ids members)
active_admin_ids-disabled id [] = refl
active_admin_ids-disabled id (m ∷ members) = ground (arith, active_admin_ids-disabled id members)

pub discard_missing : (id : ℕ) (ids : List ℕ) → contains ids id ≡ false → discard id ids ≡ ids
discard_missing id [] h = refl
discard_missing id (n ∷ ids) h = ground (arith, h, discard_missing id ids)

pub discard_fresh :
    (id : ℕ) (ids : List ℕ) → All (λ n. (id == n) ≡ false) ids → discard id ids ≡ ids
discard_fresh id [] h = refl
discard_fresh id (n ∷ ids) h = ground (arith, h.0, discard_fresh id ids h.1)

pub length-discard :
    (id : ℕ) (ids : List ℕ) → Distinct ids → length ids ≤ suc (length (discard id ids))
length-discard id [] h = omega arith
length-discard id (n ∷ ids) h = elim (Bool-cases (n == id)) [
  | inl same ↦ ground (
    arith,
    same,
    discard_fresh id ids (subst (λ k. All (λ j. (k == j) ≡ false) ids) ((==_iff n id).0 same) h.0),
  )
  | inr other ↦ ground (arith, other, length-discard id ids h.1)
]

pub not_admin :
    (id : ℕ) (members : List Member) (m : Member)
    → Distinct (map member_key members)
    → get member_key id members ≡ some m
    → is_active_admin m ≡ false
    → contains (active_admin_ids members) id ≡ false
not_admin id [] m d found plain = refl
not_admin id (x ∷ members) m d found plain = elim (Bool-cases (x.id == id)) [
  | inl same ↦ ground (
    arith,
    same,
    found,
    plain,
    no_id members (
        subst (λ n. All (λ j. (n == j) ≡ false) (map member_key members)) ((==_iff x.id id).0 same)
          d.0),
  )
  | inr other ↦ ground (arith, other, found, not_admin id members m d.1)
]
  where
    no_id :
        (ms : List Member)
        → All (λ n. (id == n) ≡ false) (map member_key ms)
        → contains (active_admin_ids ms) id ≡ false
    no_id [] h = refl
    no_id (y ∷ ms) h = ground (arith, h.0, no_id ms h.1)

-- what the loop of the batch keeps: its set is that of the active administrators
pub record Tracks (admins : List ℕ) (members : List Member) : Type 0 where
  pub same : admins ≡ active_admin_ids members
  pub safe : IsSafe members

abbrev pub guarded : ℕ → List ℕ → Bool
guarded id admins = contains admins id && leb (length admins) 1

pub left_enough :
    (id : ℕ) (admins : List ℕ)
    → Distinct admins
    → 1 ≤ length admins
    → guarded id admins ≡ false
    → 1 ≤ length (discard id admins)
left_enough id admins d one guard = elim (Bool-cases (contains admins id)) [
  | inl listed ↦ omega (
    arith,
    length-discard id admins d,
    not_leb→lt (length admins) 1 (ground (arith, listed, guard)),
  )
  | inr absent ↦ rw (discard_missing id admins absent) one
]

pub IsSafe-disabled :
    (id : ℕ) (members : List Member)
    → IsSafe members
    → guarded id (active_admin_ids members) ≡ false
    → IsSafe (changed id MemberStatus.disabled members)
IsSafe-disabled id members h guard = record {
  distinct =
      rw
        (keys-modify member_key id (λ m. record m { status = MemberStatus.disabled }) members
          (λ m. refl))
        h.distinct;
  remains =
      let counted = length-map member_key (filter is_active_admin members) in
      let after =
        length-map member_key (filter is_active_admin (changed id MemberStatus.disabled members)) in
      let enough =
        left_enough id (active_admin_ids members)
          (Distinct-filter member_key is_active_admin members h.distinct)
          (omega (arith, counted, h.remains)) guard in
      omega (arith, after, ap length (active_admin_ids-disabled id members), enough);
}
