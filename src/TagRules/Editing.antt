-- ===== src/TagRules/Editing.antt =====
-- The guard of patterns and the changes of the rules of src/ai_api/services/tag_rules.py. A call that raises
-- leaves the rules to its caller, who rolls back.
use ai_api.Base.{
  is_some, ℕ, suc, Bool, true, false, not, Option, none, some, List, [], ◌∷◌, ◌++◌, map, filter,
  length, if◌then◌else◌, ltb, ◌==◌, ◌&&◌, ◌||◌, get, modify, Try, ok, raise,
}
use ai_api.Models.{Text}
use ai_api.Base.Strings.{strip, starts_with}
use ai_api.Access.ModelAccess.{TagSource}
use ai_api.Tags.{TagDb, contains, validate_tag, add}
use ai_api.TagRules.{MatcherType, TagRule, rule_id, Regex, sort_rules, evaluate}

-- `ValueError` of a tag, `UnsafeRegexError`
pub data RuleError : Type 0 where
  invalid_tag unsafe_regex : RuleError

abbrev pub max_quantifiers : ℕ
max_quantifiers = 10

-- the rest of `_NESTED_QUANTIFIER` behind its opening parenthesis
unfoldable pub closes_nested : Bool → Text → Bool
closes_nested seen [] = false
closes_nested seen (c ∷ []) = false
closes_nested seen (c ∷ d ∷ s) =
    let rest = closes_nested (seen || (c == b'+' || c == b'*')) (d ∷ s) in
    if c == b')' then seen && (d == b'+' || (d == b'*' || d == b'?')) else rest

-- `_NESTED_QUANTIFIER.search`
unfoldable pub nested_quantifier : Text → Bool
unfolding closes_nested
nested_quantifier [] = false
nested_quantifier (c ∷ s) = (c == b'(' && closes_nested false s) || nested_quantifier s

-- `len(_QUANTIFIER_CHARS.findall(raw))`
abbrev pub quantifiers : Text → ℕ
quantifiers s = length (filter (λ c. c == b'+' || (c == b'*' || c == b'{')) s)

abbrev pub last_is : ℕ → Text → Bool
last_is d [] = false
last_is d (c ∷ []) = c == d
last_is d (c ∷ e ∷ s) = last_is d (e ∷ s)

-- `f"^(?:{raw})$"`, where it is not anchored
unfoldable pub anchored : Text → Text
unfolding starts_with
anchored raw =
    if starts_with (b'^' ∷ []) raw && last_is b'$' raw
    then raw
    else b'^' ∷ b'(' ∷ b'?' ∷ b':' ∷ (raw ++ b')' ∷ b'$' ∷ [])

abbrev pub is_blank : Text → Bool
is_blank [] = true
is_blank (_ ∷ _) = false

-- `max(..., default=-1) + 1`
unfoldable pub next_order : List TagRule → ℕ
next_order [] = 0
next_order (r ∷ rules) =
    let rest = next_order rules in if ltb r.order_index rest then rest else suc r.order_index

abbrev pub or_else {ℓ} : {A : Type ℓ} → A → Option A → A
or_else a none = a
or_else a (some b) = b

abbrev pub valid_or_none : Option Text → Bool
valid_or_none none = true
valid_or_none (some tag) = validate_tag tag

-- `delete`
unfoldable pub delete_rule : ℕ → List TagRule → Bool × List TagRule
delete_rule id rules =
    if is_some (get rule_id id rules)
    then (true, filter (λ r. not (r.id == id)) rules)
    else (false, rules)

abbrev pub all_in : List ℕ → List ℕ → Bool
all_in [] ids = true
all_in (n ∷ ns) ids = contains ids n && all_in ns ids

-- the loop of `reorder`, from an index on
unfoldable pub renumber : ℕ → List ℕ → List TagRule → List TagRule
renumber index [] rules = rules
renumber index (id ∷ order) rules =
    renumber (suc index) order (modify rule_id id (λ r. record r { order_index = index }) rules)

-- `reorder`
unfoldable pub reorder : List ℕ → List TagRule → Option (List TagRule) × List TagRule
unfolding renumber sort_rules
reorder order rules =
    let ids = map rule_id rules in
    if all_in ids order && (all_in order ids && length order == length rules)
    then (let rules' = renumber 0 order rules in (some (sort_rules rules'), rules'))
    else (none, rules)

abbrev pub new_rule : ℕ → MatcherType → Text → Text → Bool → List TagRule → TagRule
new_rule id matcher stored tag enabled rules = record {
  id = id;
  order_index = next_order rules;
  matcher_type = matcher;
  pattern = stored;
  tag = tag;
  enabled = enabled;
}

module _ (re : Regex) where
  -- `guard_regex`, for a pattern that is stripped
  unfoldable pub guard_raw : Text → Try RuleError Text
  unfolding nested_quantifier anchored
  guard_raw raw =
      if is_blank raw
        || (nested_quantifier raw
            || (ltb max_quantifiers (quantifiers raw) || not (re.compiles raw)))
      then raise unsafe_regex
      else ok (anchored raw)

  -- `guard_regex`
  unfoldable pub guard_regex : Text → Try RuleError Text
  unfolding guard_raw strip
  guard_regex pattern = guard_raw (strip pattern)

  -- `_normalize`
  unfoldable pub normalize : MatcherType → Text → Try RuleError Text
  unfolding guard_regex strip
  normalize MatcherType.email_localpart_regex pattern = guard_regex pattern
  normalize MatcherType.identifier_regex pattern = guard_regex pattern
  normalize MatcherType.always pattern = ok []
  normalize MatcherType.email_suffix pattern = ok (strip pattern)
  normalize MatcherType.email_domain pattern = ok (strip pattern)

  -- `create`, for a fresh id
  unfoldable pub create_rule :
      ℕ → MatcherType → Text → Text → Bool → List TagRule → Try RuleError TagRule × List TagRule
  unfolding validate_tag normalize next_order
  create_rule id matcher tag pattern enabled rules =
      if validate_tag tag
      then elim (normalize matcher pattern) [
        | raise e ↦ (raise e, rules)
        | ok stored ↦
            let rule = new_rule id matcher stored tag enabled rules in (ok rule, rules ++ rule ∷ [])
      ]
      else (raise invalid_tag, rules)

  -- what `update` makes of the pattern
  unfoldable pub updated_pattern : TagRule → Option MatcherType → Option Text → Try RuleError Text
  unfolding normalize
  updated_pattern rule none none = ok rule.pattern
  updated_pattern rule none (some pattern) = normalize rule.matcher_type pattern
  updated_pattern rule (some matcher) none = normalize matcher rule.pattern
  updated_pattern rule (some matcher) (some pattern) = normalize matcher pattern

  -- `update`
  unfoldable pub update_rule :
      ℕ
      → Option MatcherType
      → Option Text
      → Option Text
      → Option Bool
      → List TagRule
      → Try RuleError (Option TagRule) × List TagRule
  unfolding validate_tag updated_pattern
  update_rule id matcher pattern tag enabled rules = elim (get rule_id id rules) [
    | none ↦ (ok none, rules)
    | some rule ↦
        if valid_or_none tag
        then elim (updated_pattern rule matcher pattern) [
          | raise e ↦ (raise e, rules)
          | ok stored ↦
              (let rule' = record rule {
                matcher_type = or_else rule.matcher_type matcher;
                pattern = stored;
                tag = or_else rule.tag tag;
                enabled = or_else rule.enabled enabled;
              } in
                (ok (some rule'), modify rule_id id (λ _. rule') rules))
        ]
        else (raise invalid_tag, rules)
  ]

  -- `apply_to_new_member`; an error of the call of `add` is logged and leaves the member without a tag
  unfoldable pub apply_to_new_member : ℕ → Text → List TagRule → TagDb → Option Text × TagDb
  unfolding evaluate
  apply_to_new_member member email rules db =
      elim (evaluate re email (filter (λ r. r.enabled) rules)) [
        | none ↦ (none, db)
        | some rule ↦
            let r = add member (rule.tag ∷ []) TagSource.auto (some rule.id) db in
            elim r.0 [ raise e ↦ (none, db) | ok _ ↦ (some rule.tag, r.1) ]
      ]
