-- ===== src/Allocations/Keys/Scopes.antt =====
-- Scopes: what a key may be given, and that the checks of the service keep the table's
-- UNIQUE(credential_id, resource_model) satisfied.
use ai_api.Base.{
  ℕ, ◌≡◌, ◌≢◌, inl, inr, refl, sym, ap, List, [], ◌∷◌, ◌++◌, map, Try-cases, ok, raise, get, All,
  Option-cases, some, any, ◌==◌, ◌∙◌,
}
use ai_api.Models.{Text, Instant, Allocation, Credential, GeneratedToken}
use ai_api.Allocations.{
  Store, AllocationError, value_error, allocation_id, credential_id, link_of, issue, new_credential,
}
use ai_api.Allocations.Keys.{
  owned_from, dedupe_from, dedupe, owned_allocations, create_member_credential,
  patch_credential_scope,
}
use ai_api.Allocations.Keys.Unique.{
  DistinctModels, UniqueModels, UniqueModels-append, UniqueModels-links, NewKey, NewKey-cross,
}
use ai_api.Allocations.Keys.Patching.{patch_key_unique}
use ai_api.Allocations.Keys.Owned.{owned_from-step, owned_from-All, owned_from-exact, any-dedupe}

found_some :
    (member : ℕ) (rows : List Allocation) (i : ℕ) (ids : List ℕ) (found : List Allocation)
    → owned_from member rows [] (dedupe (i ∷ ids)) ≡ ok found
    → found ≢ []
unfolding dedupe
found_some member rows i ids found h empty =
    let (a, rest, _, _, _, _, same) =
      owned_from-step member rows [] i (dedupe_from (i ∷ []) ids) found h in
    cc

module _ (fresh : ℕ) (token : GeneratedToken) (now : Instant) (member : ℕ) (name : Text) where
  issued :
      (i : ℕ) (ids : List ℕ) (st : Store) (found : List Allocation)
      → owned_allocations member (i ∷ ids) st ≡ ok found
      → let key = new_credential fresh member name token now in
        create_member_credential fresh token now member name (i ∷ ids) st
        ≡ (ok (key, token), issue key (map (link_of key) found) st)
  unfolding create_member_credential
  issued i ids st found e = rw (e, create_member_credential)

  not_issued :
      (i : ℕ) (ids : List ℕ) (st : Store) (x : AllocationError)
      → owned_allocations member (i ∷ ids) st ≡ raise x
      → create_member_credential fresh token now member name (i ∷ ids) st ≡ (raise x, st)
  unfolding create_member_credential
  not_issued i ids st x e = rw (e, create_member_credential)

  not_issued_empty :
      (st : Store)
      → create_member_credential fresh token now member name [] st ≡ (raise value_error, st)
  unfolding create_member_credential
  not_issued_empty st = refl

-- A key that is issued has the given owner and the fresh token, and is the table's last row.
pub created :
    (fresh : ℕ) (token : GeneratedToken) (now : Instant) (member : ℕ) (name : Text) (ids : List ℕ)
    (st : Store) (c : Credential) (t : GeneratedToken)
    → (create_member_credential fresh token now member name ids st).0 ≡ ok (c, t)
    → (c ≡ new_credential fresh member name token now)
      × (t ≡ token)
      × ((create_member_credential fresh token now member name ids st).1.credentials
          ≡ st.credentials ++ c ∷ [])
unfolding issue
created fresh token now member name [] st c t h =
    absurd (cc (not_issued_empty fresh token now member name st))
created fresh token now member name (i ∷ ids) st c t h =
    elim (Try-cases (owned_allocations member (i ∷ ids) st)) [
      | inr (x, failed) ↦ absurd (cc (not_issued fresh token now member name i ids st x failed))
      | inl (found, e) ↦
          let made = issued fresh token now member name i ids st found e in
          let same : new_credential fresh member name token now ≡ c = cc (made, h) in
          (sym same, cc (made, h), rw (made, ← same) refl)
    ]

-- Where no key is issued the store stays as it was.
pub unchanged_on_error :
    (fresh : ℕ) (token : GeneratedToken) (now : Instant) (member : ℕ) (name : Text) (ids : List ℕ)
    (st : Store) (x : AllocationError)
    → (create_member_credential fresh token now member name ids st).0 ≡ raise x
    → (create_member_credential fresh token now member name ids st).1 ≡ st
unchanged_on_error fresh token now member name [] st x h =
    ap (λ r. r.1) (not_issued_empty fresh token now member name st)
unchanged_on_error fresh token now member name (i ∷ ids) st x h =
    elim (Try-cases (owned_allocations member (i ∷ ids) st)) [
      | inr (y, failed) ↦ ap (λ r. r.1) (not_issued fresh token now member name i ids st y failed)
      | inl (found, e) ↦ absurd (cc (issued fresh token now member name i ids st found e))
    ]

-- Issuing a key succeeds only for ids of the member's own allocations: the rows of the table under exactly
-- the requested ids are at least one, all of the member and of distinct models, and the new key is linked to
-- exactly these. The table of links keeps its unique constraint, which it had, where no link has the new
-- key's id yet.
pub create_scope :
    (fresh : ℕ) (token : GeneratedToken) (now : Instant) (member : ℕ) (name : Text) (ids : List ℕ)
    (st : Store) (c : Credential) (t : GeneratedToken)
    → UniqueModels st.links
    → NewKey fresh st.links
    → (create_member_credential fresh token now member name ids st).0 ≡ ok (c, t)
    → (found : List Allocation) × (found ≢ [])
      × All (λ a. get allocation_id a.id st.allocations ≡ some a) found
      × ((i : ℕ) → any (λ a. a.id == i) found ≡ any (λ j. j == i) ids)
      × All (λ a. a.member_id ≡ member) found
      × DistinctModels found
      × ((create_member_credential fresh token now member name ids st).1.links
          ≡ st.links ++ map (link_of c) found)
      × UniqueModels (create_member_credential fresh token now member name ids st).1.links
unfolding owned_allocations issue
create_scope fresh token now member name [] st c t unique new h =
    absurd (cc (not_issued_empty fresh token now member name st))
create_scope fresh token now member name (i ∷ ids) st c t unique new h =
    elim (Try-cases (owned_from member st.allocations [] (dedupe (i ∷ ids)))) [
      | inr (x, failed) ↦ absurd (cc (not_issued fresh token now member name i ids st x failed))
      | inl (found, e) ↦
          let key = new_credential fresh member name token now in
          let made = issued fresh token now member name i ids st found e in
          let (owned, distinct) =
            owned_from-All member st.allocations [] (dedupe (i ∷ ids)) found e in
          let (own, exact) = owned_from-exact member st.allocations [] (dedupe (i ∷ ids)) found e in
          let same : key ≡ c = cc (made, h) in
          (
            found,
            found_some member st.allocations i ids found e,
            own,
            (λ k. exact k ∙ any-dedupe k (i ∷ ids)),
            owned,
            distinct,
            rw (made, ← same) refl,
            rw made (
                UniqueModels-append st.links (map (link_of key) found) unique
                  (UniqueModels-links key found distinct)
                  (NewKey-cross key st.links found (unfold new_credential in new))),
          )
    ]

-- Patching a key's scope, whatever it adds and removes and whether it succeeds, keeps the table of
-- links within its unique constraint.
pub patch_keeps_unique :
    (id : ℕ) (add remove : List ℕ) (st : Store)
    → UniqueModels st.links
    → UniqueModels (patch_credential_scope id add remove st).1.links
unfolding patch_credential_scope
patch_keeps_unique id add remove st unique =
    elim (Option-cases (get credential_id id st.credentials)) [
      | inl gone ↦ rw (gone, patch_credential_scope) unique
      | inr (c, found) ↦
          rw (found, patch_credential_scope) (patch_key_unique c add remove st unique)
    ]
