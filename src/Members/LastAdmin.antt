-- ===== src/Members/LastAdmin.antt =====
-- The last active administrator, under the calls of src/ai_api/services/members.py one by one.
use ai_api.Base.{
  ℕ, ◌≤◌, ◌≡◌, ◌⊎◌, inl, inr, refl, ap, sym, ◌∙◌, Bool, true, false, not, Option, some, List, map,
  filter, arith, get, keys-modify, ◌==◌, ◌&&◌, leb, Bool-cases, Option-cases,
}
use mathlib.Core.Path.{subst}
use ai_api.Base.UniqueKeys.{Distinct, Distinct-filter}
use ai_api.Models.{Member}
use ai_api.Models.Events.{AuditEventType}
use ai_api.Allocations.{member_key}
use ai_api.Members.{
  with_admin, same_bool, set_is_admin, is_active_admin, admin_count, other_admins, allocations_of,
  credentials_of, delete_rows, delete,
}
use ai_api.Members.Tables.{MemberDb, with_members, with_audit}
use ai_api.Members.Counts.{
  length-modify_more, length-modify_less, filter-delete, filter-delete_other,
}
use ai_api.Members.References.{delete-cases}

-- ids are distinct, and an administrator is active
pub record IsSafe (members : List Member) : Type 0 where
  pub distinct : Distinct (map member_key members)
  pub remains : 1 ≤ admin_count members

-- what `set_is_admin` does to the members: nothing, a promotion, or a demotion of one of several
set_is_admin-cases :
    (id : ℕ) (is_admin : Bool) (db : MemberDb)
    → ((set_is_admin id is_admin db).1 ≡ db)
      ⊎ (((set_is_admin id is_admin db).1 ≡ with_admin id is_admin db)
          × ((not is_admin && leb (admin_count db.store.members) 1) ≡ false))
unfolding set_is_admin
set_is_admin-cases id is_admin db = elim (Option-cases (get member_key id db.store.members)) [
  | inl missing ↦ inl (rw (missing, set_is_admin) refl)
  | inr (m, found) ↦ elim (Bool-cases (same_bool m.is_admin is_admin)) [
    | inl same ↦ inl (rw (found, same, set_is_admin) refl)
    | inr differs ↦ elim (Bool-cases (not is_admin && leb (admin_count db.store.members) 1)) [
      | inl last ↦ inl (rw (found, differs, last, set_is_admin) refl)
      | inr safe ↦ inr (rw (found, differs, safe, set_is_admin) refl, safe)
    ]
  ]
]

IsSafe-with_admin :
    (id : ℕ) (is_admin : Bool) (db : MemberDb)
    → IsSafe db.store.members
    → (not is_admin && leb (admin_count db.store.members) 1) ≡ false
    → IsSafe (with_admin id is_admin db).store.members
unfolding with_admin with_members with_audit
IsSafe-with_admin id true db h safe = record {
  distinct =
      rw
        (keys-modify member_key id (λ m. record m { is_admin = true }) db.store.members (λ m. refl))
        h.distinct;
  remains = omega (
    arith,
    h.remains,
    length-modify_more member_key is_active_admin id (λ m. record m { is_admin = true })
        db.store.members (λ m k. ground (arith, k)),
  );
}
IsSafe-with_admin id false db h safe = record {
  distinct =
      rw
        (keys-modify member_key id (λ m. record m { is_admin = false }) db.store.members
          (λ m. refl))
        h.distinct;
  remains = ground (
    arith,
    safe,
    length-modify_less member_key is_active_admin id (λ m. record m { is_admin = false })
        db.store.members h.distinct,
  );
}

pub IsSafe-set_is_admin :
    (id : ℕ) (is_admin : Bool) (db : MemberDb)
    → IsSafe db.store.members
    → IsSafe (set_is_admin id is_admin db).1.store.members
IsSafe-set_is_admin id is_admin db h = elim (set_is_admin-cases id is_admin db) [
  | inl same ↦ subst (λ d. IsSafe d.store.members) (sym same) h
  | inr (done, safe) ↦
      subst (λ d. IsSafe d.store.members) (sym done) (IsSafe-with_admin id is_admin db h safe)
]

-- the members that a removal leaves
abbrev left : ℕ → List Member → List Member
left id members = filter (λ m. not (m.id == id)) members

members-delete_rows :
    (event : AuditEventType) (id : ℕ) (allocs creds : List ℕ) (db : MemberDb)
    → (with_audit event id (delete_rows id allocs creds db)).store.members
      ≡ left id db.store.members
unfolding with_audit delete_rows
members-delete_rows event id allocs creds db = refl

IsSafe-left :
    (id : ℕ) (members : List Member) (m : Member)
    → IsSafe members
    → get member_key id members ≡ some m
    → (is_active_admin m && other_admins id members == 0) ≡ false
    → IsSafe (left id members)
IsSafe-left id members m h found safe = record {
  distinct = Distinct-filter member_key (λ x. not (x.id == id)) members h.distinct;
  remains = elim (Bool-cases (is_active_admin m)) [
    | inl admin ↦ ground (arith, safe, admin, filter-delete member_key is_active_admin id members)
    | inr plain ↦ ground (
      arith,
      h.remains,
      filter-delete member_key is_active_admin id members,
      filter-delete_other member_key is_active_admin id members m h.distinct found plain,
    )
  ];
}

pub IsSafe-delete :
    (id : ℕ) (acting : Option ℕ) (db : MemberDb)
    → IsSafe db.store.members
    → IsSafe (delete id acting db).1.store.members
IsSafe-delete id acting db h = elim (delete-cases id acting db) [
  | inl same ↦ subst (λ d. IsSafe d.store.members) (sym same) h
  | inr (_, deleted, (m, found, safe)) ↦
      subst IsSafe
        (sym (
          ap (λ d. d.store.members) deleted
          ∙ members-delete_rows AuditEventType.member_deleted id (allocations_of id db)
              (credentials_of id db) db))
        (IsSafe-left id db.store.members m h found safe)
]
