-- ===== src/TagRules/Appending.antt =====
-- What a new rule of src/ai_api/services/tag_rules.py changes for a member.
use ai_api.Base.{
  ℕ, ◌≤◌, ◌<◌, ◌≡◌, inl, inr, refl, ap, sym, ◌∙◌, Bool, true, Option, none, some, List, [], ◌∷◌,
  ◌++◌, arith, All, All-weaken, find?, if◌then◌else◌, ltb, ltb→lt, not_ltb→le, Bool-cases, Try, ok,
  Try-cases,
}
use ai_api.Models.{Text}
use ai_api.TagRules.{MatcherType, TagRule, Regex, applies, insert_rule, sort_rules, evaluate}
use ai_api.TagRules.Editing.{RuleError, next_order, normalize, new_rule, create_rule}
use ai_api.Tags.{validate_tag}

next_order-above :
    (r : TagRule) (rules : List TagRule)
    → (r.order_index < next_order (r ∷ rules)) × (next_order rules ≤ next_order (r ∷ rules))
unfolding next_order
next_order-above r rules = elim (Bool-cases (ltb r.order_index (next_order rules))) [
  | inl within ↦ rw within (ltb→lt _ _ within, omega arith)
  | inr above ↦ rw above (omega arith, omega (arith, not_ltb→le _ _ above))
]

All-next_order : (rules : List TagRule) → All (λ s. s.order_index < next_order rules) rules
All-next_order [] = tt
All-next_order (r ∷ rules) = (
  (next_order-above r rules).0,
  All-weaken _ _ rules (λ s k. omega (arith, k, (next_order-above r rules).1))
      (All-next_order rules),
)

insert_rule-append :
    (s : TagRule) (rules : List TagRule) (r : TagRule)
    → s.order_index < r.order_index
    → insert_rule s (rules ++ r ∷ []) ≡ insert_rule s rules ++ r ∷ []
unfolding insert_rule
insert_rule-append s [] r h = ground (arith, h)
insert_rule-append s (x ∷ rules) r h = ground (arith, h, insert_rule-append s rules r h)

sort_rules-append :
    (rules : List TagRule) (r : TagRule)
    → All (λ s. s.order_index < r.order_index) rules
    → sort_rules (rules ++ r ∷ []) ≡ sort_rules rules ++ r ∷ []
unfolding sort_rules insert_rule
sort_rules-append [] r h = refl
sort_rules-append (s ∷ rules) r h =
    ap (insert_rule s) (sort_rules-append rules r h.1)
    ∙ insert_rule-append s (sort_rules rules) r h.0

-- the first match, with one more element
abbrev pub or_last : Option TagRule → Bool → TagRule → Option TagRule
or_last (some s) _ r = some s
or_last none match r = if match then some r else none

find-append :
    (p : TagRule → Bool) (rules : List TagRule) (r : TagRule)
    → find? p (rules ++ r ∷ []) ≡ or_last (find? p rules) (p r) r
find-append p [] r = refl
find-append p (s ∷ rules) r = ground (arith, find-append p rules r)

module _ (re : Regex) where
  evaluate-append :
      (email : Text) (rules : List TagRule) (r : TagRule)
      → All (λ s. s.order_index < r.order_index) rules
      → evaluate re email (rules ++ r ∷ [])
        ≡ or_last (evaluate re email rules) (applies re email r) r
  unfolding evaluate
  evaluate-append email rules r h =
      ap (find? (applies re email)) (sort_rules-append rules r h)
      ∙ find-append (applies re email) (sort_rules rules) r

  create_rule-accepted :
      (id : ℕ) (matcher : MatcherType) (tag pattern stored : Text) (enabled : Bool)
      (rules : List TagRule)
      → validate_tag tag ≡ true
      → normalize re matcher pattern ≡ ok stored
      → create_rule re id matcher tag pattern enabled rules ≡ (
        ok (new_rule id matcher stored tag enabled rules),
        rules ++ new_rule id matcher stored tag enabled rules ∷ [],
      )
  unfolding create_rule
  create_rule-accepted id matcher tag pattern stored enabled rules good fine =
      rw (good, fine, create_rule) refl

  returned :
      (answer : Try RuleError TagRule) (new rule : TagRule)
      → answer ≡ ok new
      → answer ≡ ok rule
      → new ≡ rule
  returned answer new rule h k = cc

  -- an accepted rule, and where it stands
  created :
      (id : ℕ) (matcher : MatcherType) (tag pattern : Text) (enabled : Bool) (rules : List TagRule)
      (rule : TagRule)
      → (create_rule re id matcher tag pattern enabled rules).0 ≡ ok rule
      → ((create_rule re id matcher tag pattern enabled rules).1 ≡ rules ++ rule ∷ [])
        × (rule.order_index ≡ next_order rules)
  unfolding create_rule
  created id matcher tag pattern enabled rules rule h = elim (Bool-cases (validate_tag tag)) [
    | inr bad ↦ absurd (ground (arith, bad, h))
    | inl good ↦ elim (Try-cases (normalize re matcher pattern)) [
      | inr (e, unsafe) ↦ absurd (ground (arith, good, unsafe, h))
      | inl (stored, fine) ↦
          let new = new_rule id matcher stored tag enabled rules in
          let same = create_rule-accepted id matcher tag pattern stored enabled rules good fine in
          let equal : new ≡ rule = returned _ new rule (ap (λ r. r.0) same) h in
          (
            ap (λ r. r.1) same ∙ ap (λ r. rules ++ r ∷ []) equal,
            sym (ap (λ r. r.order_index) equal),
          )
    ]
  ]

  -- A rule that is created comes last: each email is matched by the rule that matched it before, and where no
  -- rule did, by the new one if that is enabled and matches, or by none.
  pub create_rule-evaluate :
      (id : ℕ) (matcher : MatcherType) (tag pattern : Text) (enabled : Bool) (rules : List TagRule)
      (rule : TagRule) (email : Text)
      → (create_rule re id matcher tag pattern enabled rules).0 ≡ ok rule
      → evaluate re email (create_rule re id matcher tag pattern enabled rules).1
        ≡ or_last (evaluate re email rules) (applies re email rule) rule
  create_rule-evaluate id matcher tag pattern enabled rules rule email h =
      let new = created id matcher tag pattern enabled rules rule h in
      ap (evaluate re email) new.0
      ∙ evaluate-append email rules rule
          (All-weaken _ _ rules (λ s k. omega (arith, k, new.1)) (All-next_order rules))
