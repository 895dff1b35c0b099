-- ===== src/TagRules/Tests.antt =====
-- Two rules and one that is created. No pattern is a regular expression here: `re` compiles everything and
-- matches a text with itself.
use ai_api.Base.{◌≡◌, refl, true, false, some, List, [], ◌∷◌, text_eq, lower, ok}
use ai_api.Models.{Text}
use ai_api.Base.Strings.{take, strip, lstrip, rstrip, is_space, starts_with}
use ai_api.Tags.{validate_tag, match_rest, at_end}
use ai_api.TagRules.{
  MatcherType, TagRule, Regex, applies, matches_as, local_part, domain_part, evaluate, sort_rules,
  insert_rule,
}
use ai_api.TagRules.Editing.{
  create_rule, next_order, normalize, guard_regex, guard_raw, nested_quantifier, closes_nested,
  anchored, reorder, renumber,
}
use ai_api.TagRules.Appending.{or_last, create_rule-evaluate}

abbrev re : Regex
re = record { compiles = λ _. true; fullmatch = λ pattern text. some (text_eq pattern text) }

-- "a@B"
abbrev email : Text
email = b'a' ∷ b'@' ∷ b'B' ∷ []

abbrev staff : Text
staff = b's' ∷ []

abbrev by_domain : TagRule
by_domain = record {
  id = 1;
  order_index = 4;
  matcher_type = MatcherType.email_domain;
  pattern = b'b' ∷ [];
  tag = staff;
  enabled = true;
}

abbrev off : TagRule
off = record by_domain {
  id = 2;
  order_index = 0;
  matcher_type = MatcherType.always;
  enabled = false;
}

abbrev rules : List TagRule
rules = by_domain ∷ off ∷ []

found : evaluate re email rules ≡ some by_domain
unfolding evaluate applies matches_as local_part domain_part take sort_rules insert_rule lower
    text_eq
found = refl

abbrev fallback : TagRule
fallback = record by_domain {
  id = 3;
  order_index = 5;
  matcher_type = MatcherType.always;
  pattern = [];
}

nested : nested_quantifier (b'(' ∷ b'a' ∷ b'+' ∷ b')' ∷ b'+' ∷ []) ≡ true
unfolding nested_quantifier closes_nested
nested = refl

plain : guard_regex re (b' ' ∷ b'a' ∷ []) ≡ ok (b'^' ∷ b'(' ∷ b'?' ∷ b':' ∷ b'a' ∷ b')' ∷ b'$' ∷ [])
unfolding guard_regex guard_raw strip lstrip rstrip is_space nested_quantifier anchored starts_with
plain = refl

reordered :
    (reorder (2 ∷ 1 ∷ []) rules).0
    ≡ some (record off { order_index = 0 } ∷ record by_domain { order_index = 1 } ∷ [])
unfolding reorder renumber sort_rules insert_rule
reordered = refl

accepted : (create_rule re 3 MatcherType.always staff [] true rules).0 ≡ ok fallback
unfolding create_rule next_order normalize validate_tag match_rest at_end
accepted = refl

create_rule-evaluate_example :
    evaluate re email (create_rule re 3 MatcherType.always staff [] true rules).1
    ≡ or_last (evaluate re email rules) (applies re email fallback) fallback
create_rule-evaluate_example =
    create_rule-evaluate re 3 MatcherType.always staff [] true rules fallback email accepted
