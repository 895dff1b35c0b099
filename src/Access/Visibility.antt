-- ===== src/Access/Visibility.antt =====
-- The three readings of the access policy in src/ai_api/services/model_access.py beside each other, and the list
-- of what can be claimed.
use ai_api.Base.{
  ℕ, ◌≡◌, inl, inr, refl, Bool, true, false, none, some, List, [], ◌∷◌, map, arith, filter, any,
  if◌then◌else◌, ◌==◌, ◌&&◌, Bool-cases, All, All-weaken, filter-All,
}
use ai_api.Models.{Text, Allocation, is_active, Member, member_is_active}
use ai_api.Access.{
  reclaim_locked, evaluate_claim_eligibility, claimed_by, has_active_self_alloc, is_locked,
  eligibility, held, offered, list_claimable,
}
use ai_api.Access.ModelAccess.{
  is_open, ModelCatalog, AccessDb, member_of, intersects, Check, evaluate_visibility,
  access_policy_allows, get_member_tags, active_providers, is_accessible, visible_to_member,
}

-- every check of a reason chain has passed
abbrev pub all_passed : List (Check × Bool) → Bool
all_passed [] = true
all_passed ((_, passed) ∷ chain) = passed && all_passed chain

-- The explanation of a model's visibility agrees with the test of the gateway: a model is visible
-- exactly when its provider has a key in force and the policy allows the member's tags, and exactly
-- when every check of the reason chain has passed.
pub visibility_agrees :
    (member : Member) (model : ModelCatalog) (db : AccessDb)
    → let (visible, chain) =
        evaluate_visibility model (get_member_tags member.id db) (active_providers db) in
      (visible ≡ is_accessible member model db) × (visible ≡ all_passed chain)
unfolding evaluate_visibility is_accessible access_policy_allows
visibility_agrees member model db =
    let tags = get_member_tags member.id db in
    elim (Bool-cases (member_of (active_providers db) model.provider)) [
      | inr no_key ↦ rw no_key (refl, refl)
      | inl key ↦ elim (Bool-cases (intersects model.denied_tags tags)) [
        | inl denied ↦ rw (key, denied) (refl, refl)
        | inr allowed ↦ elim (Bool-cases (is_open model.default_access)) [
          | inl everyone ↦ rw (key, allowed, everyone) (refl, refl)
          | inr limited ↦ elim (Bool-cases (intersects model.allowed_tags tags)) [
            | inl hit ↦ rw (key, allowed, limited, hit) (refl, refl)
            | inr miss ↦ rw (key, allowed, limited, miss) (refl, refl)
          ]
        ]
      ]
    ]

-- The list that a member sees has just models that the gateway lets the member call.
pub visible_models_accessible :
    (member : Member) (models : List ModelCatalog) (db : AccessDb)
    → All (λ m. is_accessible member m db ≡ true) (visible_to_member member models db)
unfolding visible_to_member is_accessible
visible_models_accessible member models db =
    All-weaken _ _ (visible_to_member member models db) (λ m h. ground (arith, h))
      (filter-All _ models)

not_held :
    (member : ℕ) (slug : Text) (rows : List Allocation)
    → member_of
        (map
          (λ a. a.resource_model)
          (filter (λ a. a.member_id == member && is_active a.status) rows))
        slug
      ≡ false
    → any (claimed_by member slug) rows ≡ false
not_held member slug [] h = refl
not_held member slug (a ∷ rows) h = ground (arith, not_held member slug rows)

-- What is listed as claimable is: a model offered to an active member is one that the member may claim,
-- unless the reclaim lock stands against it, which is then the reason of the refusal.
offered_is_eligible :
    (member : Member) (model : ModelCatalog) (db : AccessDb)
    → member_is_active member.status ≡ true
    → offered member db model ≡ true
    → eligibility member model.slug model db
      ≡ (if is_locked member.id model.slug db.store then some reclaim_locked else none)
unfolding eligibility evaluate_claim_eligibility has_active_self_alloc held
offered_is_eligible member model db active h =
    ground (arith, active, h, not_held member.id model.slug db.store.allocations)

All-map {ℓ κ ν} :
    {A : Type ℓ} {B : Type κ} (f : A → B) (P : B → Type ν) (xs : List A)
    → All (λ x. P (f x)) xs
    → All P (map f xs)
All-map f P [] h = tt
All-map f P (x ∷ xs) h = (h.0, All-map f P xs h.1)

-- What the list of claimable models says is what a claim will answer: each listed model is one that the
-- member may claim, or one marked as locked, for which the reclaim lock is the reason of the refusal.
pub listed_as_claimable :
    (member : Member) (db : AccessDb)
    → All
        (λ (m, locked).
          eligibility member m.slug m db ≡ (if locked then some reclaim_locked else none))
        (list_claimable member db)
unfolding list_claimable
listed_as_claimable member db = elim (Bool-cases (member_is_active member.status)) [
  | inr disabled ↦ rw disabled tt
  | inl active ↦ rw active (
      All-map (λ m. (m, is_locked member.id m.slug db.store)) _
        (filter (offered member db) db.model_catalog)
        (All-weaken _ _ (filter (offered member db) db.model_catalog)
          (λ m h. offered_is_eligible member m db active h)
          (filter-All (offered member db) db.model_catalog)))
]
