-- ===== src/Policy.antt =====
-- src/ai_api/auth/policy.py: from where and with which email one may sign in. What Python's `ipaddress` makes of
-- an address and of a network is an argument.
pub mod Editing
pub mod Whitelisted
mod Tests
use ai_api.Base.{
  is_empty, is_some, ℕ, ◌≡◌, ◌≤◌, inl, inr, refl, Bool, true, false, Option, none, some, List, [],
  ◌∷◌, filter, find?, any, if◌then◌else◌, ltb, leb, ◌==◌, ◌&&◌, ◌||◌, text_eq, lower, arith,
  Bool-cases,
}
use ai_api.Models.{Text, Member, member_is_active}
use ai_api.Base.Strings.{strip}
use ai_api.Members.{is_active_admin, admin_count}

pub record SourceRestriction : Type 0 where
  pub id : ℕ
  pub cidr : Text
  pub enabled : Bool

pub data RuleType : Type 0 where
  email_domain : RuleType

pub record AutoRegisterRule : Type 0 where
  pub id : ℕ
  pub rule_type : RuleType
  pub pattern : Text
  pub enabled : Bool

-- What the code relies on of `ipaddress`: an address as a number, or a ValueError, and whether a network has
-- an address, or a ValueError.
pub record IpAddresses : Type 0 where
  pub ip_address : Text → Option ℕ
  pub network_has : Text → ℕ → Option Bool

-- `normalize_email`
unfoldable pub normalize_email : Text → Text
unfolding lower
normalize_email raw = lower (strip raw)

abbrev pub has : Option Bool → Bool
has none = false
has (some b) = b

abbrev pub enabled_restrictions : List SourceRestriction → List SourceRestriction
enabled_restrictions rows = filter (λ r. r.enabled) rows

-- the loop over the restrictions, for an address
abbrev pub matches_one : IpAddresses → Text → List SourceRestriction → Bool
matches_one ips source rows = elim (ips.ip_address source) [
  | none ↦ false
  | some ip ↦ any (λ r. has (ips.network_has r.cidr ip)) rows
]

abbrev pub text_or_empty : Option Text → Text
text_or_empty none = []
text_or_empty (some s) = s

-- `is_source_allowed`
unfoldable pub is_source_allowed : IpAddresses → Option Text → List SourceRestriction → Bool
is_source_allowed ips source rows =
    is_empty (enabled_restrictions rows)
    || (if is_empty (text_or_empty source)
        then false
        else matches_one ips (text_or_empty source) (enabled_restrictions rows))

abbrev pub has_at : Text → Bool
has_at s = any (λ c. c == b'@') s

-- what stands behind the last `@`
unfoldable pub after_last_at : Text → Text
after_last_at [] = []
after_last_at (c ∷ s) =
    let rest = after_last_at s in if has_at s then rest else if c == b'@' then s else c ∷ s

-- `email_n.rsplit("@", 1)[-1] if "@" in email_n else ""`
unfoldable pub domain_of : Text → Text
unfolding after_last_at
domain_of email = if has_at email then after_last_at email else []

abbrev pub rule_matches : Text → AutoRegisterRule → Bool
rule_matches domain r = r.enabled && text_eq (lower r.pattern) domain

-- `is_email_allowed`, over the rules, the members and the whitelist
unfoldable pub is_email_allowed : Text → List AutoRegisterRule → List Member → List Text → Bool
unfolding normalize_email domain_of text_eq lower
is_email_allowed email rules members whitelist =
    let email_n = normalize_email email in
    if any (rule_matches (domain_of email_n)) rules
    then true
    else if ltb 0 (admin_count members)
    then is_some (find? (λ m. text_eq m.email email_n && member_is_active m.status) members)
    else any (λ w. text_eq w email_n) whitelist

-- The whitelist is for the bootstrap only: where an administrator is active, two whitelists give the same
-- answer.
pub whitelist_inert :
    (email : Text) (rules : List AutoRegisterRule) (members : List Member)
    (whitelist other : List Text)
    → 1 ≤ admin_count members
    → is_email_allowed email rules members whitelist ≡ is_email_allowed email rules members other
unfolding is_email_allowed
whitelist_inert email rules members whitelist other h = ground (arith, h)

-- A restriction that admits a source admits it beside others: where one that is enabled has the address, the
-- source is allowed whatever restrictions are enabled beside it, also those that are no networks.
pub source_admitted :
    (ips : IpAddresses) (c : ℕ) (source : Text) (ip : ℕ) (rows : List SourceRestriction)
    → ips.ip_address (c ∷ source) ≡ some ip
    → any (λ r. has (ips.network_has r.cidr ip)) (enabled_restrictions rows) ≡ true
    → is_source_allowed ips (some (c ∷ source)) rows ≡ true
unfolding is_source_allowed
source_admitted ips c source ip rows address admitted = ground (arith, address, admitted)
