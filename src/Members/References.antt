-- ===== src/Members/References.antt =====
-- The rows that refer to a member whom src/ai_api/services/members.py removes.
use ai_api.Base.{
  ℕ, ◌≡◌, ◌⊎◌, inl, inr, refl, ap, sym, ◌∙◌, Bool, true, false, not, Option, some, List, [], ◌∷◌,
  map, filter, arith, All, All-both, All-kept, All-update_where, All-weaken, get, ◌==◌, ==_iff,
  ==_refl, ◌&&◌, Bool-cases, Option-cases, ok,
}
use mathlib.Core.Path.{subst}
use ai_api.Models.{Member}
use ai_api.Models.Events.{AuditEventType}
use ai_api.Allocations.{member_key, allocation_id, credential_id}
use ai_api.Tags.{contains}
use ai_api.Members.{
  allocations_of, credentials_of, refers_to, orphaned, delete_rows, is_acting, is_active_admin,
  other_admins, delete,
}
use ai_api.Members.Tables.{MemberDb, with_audit}

-- a number is a key of a table
abbrev pub IsKey {ℓ} : {A : Type ℓ} → (A → ℕ) → List A → ℕ → Type 0
IsKey key rows k = contains (map key rows) k ≡ true

-- every reference of a row leads to a row
pub record References (db : MemberDb) : Type 0 where
  pub of_allocations : All (λ a. IsKey member_key db.store.members a.member_id) db.store.allocations
  pub of_credentials : All (λ c. IsKey member_key db.store.members c.member_id) db.store.credentials
  pub of_links :
      All
        (λ l.
          IsKey credential_id db.store.credentials l.credential_id
          × IsKey allocation_id db.store.allocations l.allocation_id)
        db.store.links
  pub of_call_records :
      All
        (λ c. (a : ℕ) → c.allocation_id ≡ some a → IsKey allocation_id db.store.allocations a)
        db.call_records
  pub of_sessions : All (λ s. IsKey member_key db.store.members s.member_id) db.sessions

module _ {ℓ} {A : Type ℓ} (key : A → ℕ) where
  contains-deleted :
      (gone : ℕ → Bool) (rows : List A) (k : ℕ)
      → contains (map key (filter (λ x. not (gone (key x))) rows)) k
        ≡ (contains (map key rows) k && not (gone k))
  contains-deleted gone [] k = refl
  contains-deleted gone (x ∷ rows) k = elim (Bool-cases (key x == k)) [
    | inl same ↦
        ground (arith, same, ap gone ((==_iff (key x) k).0 same), contains-deleted gone rows k)
    | inr other ↦ ground (arith, other, contains-deleted gone rows k)
  ]

  -- a key that is not deleted stays
  IsKey-deleted :
      (gone : ℕ → Bool) (rows : List A) (k : ℕ)
      → IsKey key rows k
      → gone k ≡ false
      → IsKey key (filter (λ x. not (gone (key x))) rows) k
  IsKey-deleted gone rows k h left = contains-deleted gone rows k ∙ ground (arith, h, left)

  contains-more :
      (own : A → Bool) (x : A) (rows : List A) (k : ℕ)
      → contains (map key (filter own rows)) k ≡ true
      → contains (map key (filter own (x ∷ rows))) k ≡ true
  contains-more own x rows k h = ground (arith, h)

  -- the keys of the rows that a test selects
  contains-selected :
      (own : A → Bool) (rows : List A)
      → All (λ x. own x ≡ true → contains (map key (filter own rows)) (key x) ≡ true) rows
  contains-selected own [] = tt
  contains-selected own (x ∷ rows) = (
    λ selected. ground (arith, selected, ==_refl (key x)),
    All-weaken _ _ rows (λ y k yes. contains-more own x rows (key y) (k yes))
        (contains-selected own rows),
  )

module _ {ℓ} {A : Type ℓ} (key : A → ℕ) where
  -- the rows that stay when those that a member owns are deleted by key
  All-left :
      (owner : A → ℕ) (members : List Member) (id : ℕ) (rows : List A)
      → All (λ x. IsKey member_key members (owner x)) rows
      → All
          (λ x. IsKey member_key (filter (λ m. not (m.id == id)) members) (owner x))
          (filter (λ x. not (contains (map key (filter (λ x. owner x == id) rows)) (key x))) rows)
  All-left owner members id rows h =
      All-kept _ _ _ rows
        (λ x k left.
          IsKey-deleted member_key (λ n. n == id) members (owner x) k.0 (not_owned x k.1 left))
        (All-both _ _ rows h (contains-selected key (λ x. owner x == id) rows))
    where
      not_owned :
          (x : A)
          → ((owner x == id) ≡ true
              → contains (map key (filter (λ x. owner x == id) rows)) (key x) ≡ true)
          → not (contains (map key (filter (λ x. owner x == id) rows)) (key x)) ≡ true
          → (owner x == id) ≡ false
      not_owned x k left = elim (Bool-cases (owner x == id)) [
        | inr other ↦ other
        | inl own ↦ absurd (ground (arith, k own, left))
      ]

References-delete_rows :
    (id : ℕ) (db : MemberDb)
    → References db
    → References (delete_rows id (allocations_of id db) (credentials_of id db) db)
unfolding delete_rows
References-delete_rows id db h = record {
  of_allocations =
      All-left allocation_id (λ a. a.member_id) db.store.members id db.store.allocations
        h.of_allocations;
  of_credentials =
      All-left credential_id (λ c. c.member_id) db.store.members id db.store.credentials
        h.of_credentials;
  of_links =
      All-kept _ _ _ db.store.links
        (λ l k left. (
          IsKey-deleted credential_id (contains (credentials_of id db)) db.store.credentials
              l.credential_id k.0 (ground (arith, left)),
          IsKey-deleted allocation_id (contains (allocations_of id db)) db.store.allocations
              l.allocation_id k.1 (ground (arith, left)),
        ))
        h.of_links;
  of_call_records =
      All-update_where _ _ (refers_to (allocations_of id db)) orphaned db.call_records
        (λ c k orphan a refers. absurd (ground (arith, refers)))
        (λ c k other a refers.
          IsKey-deleted allocation_id (contains (allocations_of id db)) db.store.allocations a
            (k a refers) (ground (arith, other, refers)))
        h.of_call_records;
  of_sessions =
      All-kept _ _ _ db.sessions
        (λ s k left.
          IsKey-deleted member_key (λ n. n == id) db.store.members s.member_id k
            (ground (arith, left)))
        h.of_sessions;
}

References-with_audit :
    (event : AuditEventType) (member : ℕ) (db : MemberDb)
    → References db
    → References (with_audit event member db)
unfolding with_audit
References-with_audit event member db h = record {
  of_allocations = h.of_allocations;
  of_credentials = h.of_credentials;
  of_links = h.of_links;
  of_call_records = h.of_call_records;
  of_sessions = h.of_sessions;
}

-- what `delete` does: it leaves the database, or it deletes the member's rows and audits that
pub delete-cases :
    (id : ℕ) (acting : Option ℕ) (db : MemberDb)
    → ((delete id acting db).1 ≡ db)
      ⊎ (((delete id acting db).0 ≡ ok true)
          × ((delete id acting db).1
              ≡ with_audit AuditEventType.member_deleted id
                  (delete_rows id (allocations_of id db) (credentials_of id db) db))
          × ((m : Member) × (get member_key id db.store.members ≡ some m)
              × ((is_active_admin m && other_admins id db.store.members == 0) ≡ false)))
unfolding delete
delete-cases id acting db = elim (Option-cases (get member_key id db.store.members)) [
  | inl missing ↦ inl (rw (missing, delete) refl)
  | inr (m, found) ↦ elim (Bool-cases (is_acting acting id)) [
    | inl own ↦ inl (rw (found, own, delete) refl)
    | inr other ↦ elim (Bool-cases (is_active_admin m && other_admins id db.store.members == 0)) [
      | inl last ↦ inl (rw (found, other, last, delete) refl)
      | inr safe ↦ inr (
        rw (found, other, safe, delete) refl,
        rw (found, other, safe, delete) refl,
        (m, found, safe),
      )
    ]
  ]
]

-- The removal of a member, whether it succeeds or is refused, keeps every reference: if each allocation, key
-- and session belongs to a member of the table, each link leads to a key and an allocation, and each call
-- record that names an allocation to one, then so it is afterwards.
pub delete-References :
    (id : ℕ) (acting : Option ℕ) (db : MemberDb)
    → References db
    → References (delete id acting db).1
delete-References id acting db h = elim (delete-cases id acting db) [
  | inl same ↦ subst References (sym same) h
  | inr (_, deleted, _) ↦
      subst References (sym deleted)
        (References-with_audit AuditEventType.member_deleted id _ (References-delete_rows id db h))
]
