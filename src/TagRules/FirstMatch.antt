-- ===== src/TagRules/FirstMatch.antt =====
-- Which rule of src/ai_api/services/tag_rules.py tags a member.
use mathlib.Core.Path.{subst}
use ai_api.Base.{
  ◌≤◌, ◌≡◌, ◌⊎◌, inl, inr, refl, Bool, true, false, Option, none, some, List, [], ◌∷◌, arith, All,
  All-weaken, find?, Has, leb, leb→le, not_leb→lt, Bool-cases, Option-cases,
}
use ai_api.Models.{Text}
use ai_api.TagRules.{TagRule, Regex, applies, insert_rule, sort_rules, evaluate}

-- what a search for the first match of a sorted list finds, in terms of the rules in any order
abbrev pub FirstOf : (TagRule → Bool) → List TagRule → Option TagRule → Type 0
FirstOf p rules none = All (λ s. p s ≡ false) rules
FirstOf p rules (some r) =
    Has r rules × (p r ≡ true) × All (λ s. p s ≡ true → r.order_index ≤ s.order_index) rules

abbrev Sorted : List TagRule → Type 0
Sorted [] = Unit
Sorted (r ∷ rules) = All (λ s. r.order_index ≤ s.order_index) rules × Sorted rules

All-insert_rule :
    (P : TagRule → Type 0) (r : TagRule) (rules : List TagRule)
    → P r
    → All P rules
    → All P (insert_rule r rules)
unfolding insert_rule
All-insert_rule P r [] h k = (h, tt)
All-insert_rule P r (s ∷ rules) h k = elim (Bool-cases (leb r.order_index s.order_index)) [
  | inl before ↦ rw before (h, k)
  | inr after ↦ rw after (k.0, All-insert_rule P r rules h k.1)
]

Sorted-insert_rule :
    (r : TagRule) (rules : List TagRule) → Sorted rules → Sorted (insert_rule r rules)
unfolding insert_rule
Sorted-insert_rule r [] h = (tt, tt)
Sorted-insert_rule r (s ∷ rules) h = elim (Bool-cases (leb r.order_index s.order_index)) [
  | inl before ↦ rw before (
    (leb→le _ _ before, All-weaken _ _ rules (λ t k. omega (arith, k, leb→le _ _ before)) h.0),
    h,
  )
  | inr after ↦ rw after (
    All-insert_rule (λ t. s.order_index ≤ t.order_index) r rules
        (omega (arith, not_leb→lt _ _ after)) h.0,
    Sorted-insert_rule r rules h.1,
  )
]

Sorted-sort_rules : (rules : List TagRule) → Sorted (sort_rules rules)
unfolding sort_rules
Sorted-sort_rules [] = tt
Sorted-sort_rules (r ∷ rules) = Sorted-insert_rule r (sort_rules rules) (Sorted-sort_rules rules)

FirstOf-other :
    (p : TagRule → Bool) (r : TagRule) (rules : List TagRule) (o : Option TagRule)
    → p r ≡ false
    → FirstOf p rules o
    → FirstOf p (r ∷ rules) o
FirstOf-other p r rules none other h = (other, h)
FirstOf-other p r rules (some s) other h =
    (inr h.0, h.1, ((λ match. absurd (ground (arith, other, match))), h.2))

-- the first match of a sorted list is the least
find-Sorted :
    (p : TagRule → Bool) (rules : List TagRule) → Sorted rules → FirstOf p rules (find? p rules)
find-Sorted p [] h = tt
find-Sorted p (r ∷ rules) h = elim (Bool-cases (p r)) [
  | inl match ↦
      rw match (inl refl, match, ((λ _. omega arith), All-weaken _ _ rules (λ s k _. k) h.0))
  | inr other ↦ rw other (FirstOf-other p r rules (find? p rules) other (find-Sorted p rules h.1))
]

-- the rules that are sorted are those that are given
All-unsorted :
    (P : TagRule → Type 0) (r : TagRule) (rules : List TagRule)
    → All P (insert_rule r rules)
    → P r × All P rules
unfolding insert_rule
All-unsorted P r [] h = h
All-unsorted P r (s ∷ rules) h = elim (Bool-cases (leb r.order_index s.order_index)) [
  | inl before ↦ rw before at h
  | inr after ↦
      let k : P s × All P (insert_rule r rules) = rw after at h in
      let rest = All-unsorted P r rules k.1 in (rest.0, (k.0, rest.1))
]

All-sort_rules :
    (P : TagRule → Type 0) (rules : List TagRule) → All P (sort_rules rules) → All P rules
unfolding sort_rules
All-sort_rules P [] h = tt
All-sort_rules P (r ∷ rules) h =
    let rest = All-unsorted P r (sort_rules rules) h in (rest.0, All-sort_rules P rules rest.1)

Has-insert_rule :
    (r : TagRule) (rules : List TagRule) (x : TagRule)
    → Has x (insert_rule r rules)
    → Has x (r ∷ rules)
unfolding insert_rule
Has-insert_rule r [] x h = h
Has-insert_rule r (s ∷ rules) x h = elim (Bool-cases (leb r.order_index s.order_index)) [
  | inl before ↦ rw before at h
  | inr after ↦
      let k : Has x (s ∷ insert_rule r rules) = rw after at h in
      elim k [
        | inl same ↦ inr (inl same)
        | inr more ↦ elim (Has-insert_rule r rules x more) [
          | inl new ↦ inl new
          | inr old ↦ inr (inr old)
        ]
      ]
]

Has-sort_rules : (rules : List TagRule) (x : TagRule) → Has x (sort_rules rules) → Has x rules
unfolding sort_rules
Has-sort_rules [] x h = h
Has-sort_rules (r ∷ rules) x h = elim (Has-insert_rule r (sort_rules rules) x h) [
  | inl new ↦ inl new
  | inr old ↦ inr (Has-sort_rules rules x old)
]

FirstOf-sort_rules :
    (p : TagRule → Bool) (rules : List TagRule) (o : Option TagRule)
    → FirstOf p (sort_rules rules) o
    → FirstOf p rules o
FirstOf-sort_rules p rules none h = All-sort_rules _ rules h
FirstOf-sort_rules p rules (some r) h =
    (Has-sort_rules rules r h.0, h.1, All-sort_rules _ rules h.2)

module _ (re : Regex) where
  -- `evaluate` is first-match-wins, on both of its branches: it finds no rule, and no rule that is enabled
  -- matches the email, or it finds one of the rules, enabled and matching, and none that is enabled and matches
  -- stands before it in the order of the indices.
  pub evaluate_lem :
      (email : Text) (rules : List TagRule)
      → ((evaluate re email rules ≡ none) × All (λ s. applies re email s ≡ false) rules)
        ⊎ ((r : TagRule) × (evaluate re email rules ≡ some r)
            × Has r rules
            × (applies re email r ≡ true)
            × All (λ s. applies re email s ≡ true → r.order_index ≤ s.order_index) rules)
  unfolding evaluate
  evaluate_lem email rules = elim (Option-cases (find? (applies re email) (sort_rules rules))) [
    | inl missing ↦ inl (missing, subst (FirstOf (applies re email) rules) missing found)
    | inr (r, e) ↦
        let first : FirstOf (applies re email) rules (some r) =
          subst (FirstOf (applies re email) rules) e found in
        inr (r, e, first.0, first.1, first.2)
  ]
    where
      found : FirstOf (applies re email) rules (find? (applies re email) (sort_rules rules))
      found =
          FirstOf-sort_rules (applies re email) rules _
            (find-Sorted (applies re email) (sort_rules rules) (Sorted-sort_rules rules))
