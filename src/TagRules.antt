-- ===== src/TagRules.antt =====
-- src/ai_api/services/tag_rules.py: the ordered rules that tag a new member, and which of them matches. What
-- Python's `re` makes of a pattern is an argument.
pub mod Editing
pub mod FirstMatch
pub mod Appending
mod Tests
use ai_api.Base.{
  ℕ, zero, suc, ◌+◌, Bool, true, false, not, Option, none, some, List, [], ◌∷◌, find?,
  if◌then◌else◌, leb, ◌==◌, ◌&&◌, ◌||◌, text_eq, lower,
}
use ai_api.Models.{Text}
use ai_api.Base.Strings.{take}

pub data MatcherType : Type 0 where
  email_localpart_regex email_suffix email_domain always identifier_regex : MatcherType

pub record TagRule : Type 0 where
  pub id : ℕ
  pub order_index : ℕ
  pub matcher_type : MatcherType
  pub pattern : Text
  pub tag : Text
  pub enabled : Bool

abbrev pub rule_id : TagRule → ℕ
rule_id r = r.id

-- What the code relies on of `re`: whether a pattern compiles, and whether it matches the whole of a text;
-- a pattern that does not compile is an `re.error`.
pub record Regex : Type 0 where
  pub compiles : Text → Bool
  pub fullmatch : Text → Text → Option Bool

abbrev pub localpart_max : ℕ
localpart_max = 64

unfoldable pub ends_with : Text → Text → Bool
unfolding text_eq
ends_with s [] = true
ends_with [] (d ∷ t) = false
ends_with (c ∷ s) (d ∷ t) = text_eq (c ∷ s) (d ∷ t) || ends_with s (d ∷ t)

-- what stands before the first `@`, and behind it
unfoldable pub local_part : Text → Text
local_part [] = []
local_part (c ∷ s) = if c == b'@' then [] else c ∷ local_part s

unfoldable pub domain_part : Text → Text
domain_part [] = []
domain_part (c ∷ s) = if c == b'@' then s else domain_part s

-- `sorted` by `order_index`, which is stable, and `ORDER BY order_index`
unfoldable pub insert_rule : TagRule → List TagRule → List TagRule
insert_rule r [] = r ∷ []
insert_rule r (s ∷ rules) =
    if leb r.order_index s.order_index then r ∷ s ∷ rules else s ∷ insert_rule r rules

unfoldable pub sort_rules : List TagRule → List TagRule
unfolding insert_rule
sort_rules [] = []
sort_rules (r ∷ rules) = insert_rule r (sort_rules rules)

module _ (re : Regex) where
  -- `re.fullmatch(...) is not None`, false on an `re.error`
  abbrev pub full_match : Text → Text → Bool
  full_match pattern text = elim (re.fullmatch pattern text) [ none ↦ false | some b ↦ b ]

  -- `_matches`
  unfoldable pub matches_as : MatcherType → Text → Text → Text → Text → Bool
  unfolding ends_with lower text_eq
  matches_as MatcherType.always pattern email local domain = true
  matches_as MatcherType.email_localpart_regex pattern email local domain = full_match pattern local
  matches_as MatcherType.identifier_regex pattern email local domain = full_match pattern email
  matches_as MatcherType.email_suffix pattern email local domain =
      ends_with (lower email) (lower pattern)
  matches_as MatcherType.email_domain pattern email local domain =
      text_eq (lower domain) (lower pattern)

  -- a rule that is enabled and matches an email
  unfoldable pub applies : Text → TagRule → Bool
  unfolding matches_as local_part domain_part take
  applies email rule =
      rule.enabled
      && matches_as rule.matcher_type rule.pattern email (take localpart_max (local_part email))
          (domain_part email)

  -- `evaluate`: the rule that matches
  unfoldable pub evaluate : Text → List TagRule → Option TagRule
  unfolding applies sort_rules
  evaluate email rules = find? (applies email) (sort_rules rules)
