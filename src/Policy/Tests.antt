-- ===== src/Policy/Tests.antt =====
-- One restriction, one rule; an address is its length, and a network has the addresses of its own length.
use ai_api.Base.{
  ◌≡◌, refl, true, false, none, some, List, [], ◌∷◌, any, length, text_eq, lower, ◌==◌,
}
use ai_api.Base.Strings.{strip, lstrip, rstrip, is_space}
use ai_api.Models.{Text}
use ai_api.Policy.Editing.{AccessControl, add_email, remove_email, add_rule}
use ai_api.Policy.Whitelisted.{
  Call, add_call, remove_call, add_rule_call, run, run_all, last_word, is_email_allowed-run_all,
}
use ai_api.Policy.{
  rule_matches, RuleType, IpAddresses, is_source_allowed, is_email_allowed, normalize_email,
  domain_of, after_last_at,
}

abbrev ips : IpAddresses
ips = record {
  ip_address = λ s. some (length s);
  network_has = λ cidr ip. some (length cidr == ip);
}

admitted :
    is_source_allowed ips
      (some (b'1' ∷ []))
      (record { id = 1; cidr = b'2' ∷ []; enabled = true } ∷ [])
    ≡ true
unfolding is_source_allowed
admitted = refl

refused :
    is_source_allowed ips none (record { id = 1; cidr = b'2' ∷ []; enabled = true } ∷ []) ≡ false
unfolding is_source_allowed
refused = refl

unrestricted :
    is_source_allowed ips none (record { id = 1; cidr = b'2' ∷ []; enabled = false } ∷ []) ≡ true
unfolding is_source_allowed
unrestricted = refl

by_rule :
    is_email_allowed
      (b'a' ∷ b'@' ∷ b'B' ∷ [])
      (record { id = 1; rule_type = RuleType.email_domain; pattern = b'b' ∷ []; enabled = true }
        ∷ [])
      []
      []
    ≡ true
unfolding is_email_allowed normalize_email domain_of after_last_at text_eq lower strip lstrip rstrip
    is_space
by_rule = refl

whitelisted : is_email_allowed (b'a' ∷ []) [] [] ((b'a' ∷ []) ∷ []) ≡ true
unfolding is_email_allowed normalize_email domain_of after_last_at text_eq lower strip lstrip rstrip
    is_space
whitelisted = refl

-- an address that is added as ` A@b`, and one that is taken off again
abbrev calls : List Call
calls =
    add_call (b' ' ∷ b'A' ∷ b'@' ∷ b'b' ∷ [])
    ∷ add_rule_call 1 RuleType.email_domain (b'c' ∷ []) true
    ∷ add_call (b'd' ∷ [])
    ∷ remove_call (b'd' ∷ [])
    ∷ []

abbrev nothing : AccessControl
nothing = record { whitelist = []; rules = []; restrictions = [] }

abbrev address : Text
address = b'a' ∷ b'@' ∷ b'b' ∷ []

unmatched :
    any (rule_matches (domain_of (normalize_email address))) (run_all calls nothing).rules ≡ false
unfolding run_all run add_email remove_email add_rule normalize_email domain_of after_last_at
    text_eq lower strip lstrip rstrip is_space
unmatched = refl

is_email_allowed-run_all_example :
    is_email_allowed address (run_all calls nothing).rules [] (run_all calls nothing).whitelist
    ≡ last_word (normalize_email address) calls false
is_email_allowed-run_all_example = is_email_allowed-run_all address calls nothing [] refl unmatched
