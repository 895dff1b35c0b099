-- ===== src/Policy/Editing.antt =====
-- src/ai_api/services/access_control.py: the whitelist, the rules and the restrictions, as they are edited. Fresh
-- ids are arguments; who added a row and when, and its note, are left out, and so is the order of the lists.
use ai_api.Base.{
  ℕ, Bool, true, false, not, List, [], ◌∷◌, ◌++◌, filter, any, if◌then◌else◌, ◌==◌, text_eq, lower,
}
use ai_api.Base.Strings.{strip}
use ai_api.Models.{Text}
use ai_api.Policy.{SourceRestriction, RuleType, AutoRegisterRule, normalize_email}

-- the three tables; of the whitelist, its key, the email
pub record AccessControl : Type 0 where
  pub whitelist : List Text
  pub rules : List AutoRegisterRule
  pub restrictions : List SourceRestriction

-- `_db.get(EmailWhitelist, email_n) is not None`
abbrev pub on_list : Text → List Text → Bool
on_list email whitelist = any (λ w. text_eq w email) whitelist

-- `WhitelistService.add`
unfoldable pub add_email : Text → AccessControl → AccessControl
unfolding normalize_email
add_email email st =
    if on_list (normalize_email email) st.whitelist
    then st
    else record st { whitelist = st.whitelist ++ normalize_email email ∷ [] }

-- `WhitelistService.remove`: whether there was an entry
unfoldable pub remove_email : Text → AccessControl → Bool × AccessControl
unfolding normalize_email text_eq
remove_email email st =
    if on_list (normalize_email email) st.whitelist
    then (
      true,
      record st { whitelist = filter (λ w. not (text_eq w (normalize_email email))) st.whitelist },
    )
    else (false, st)

-- `RuleService.create`
unfoldable pub add_rule : ℕ → RuleType → Text → Bool → AccessControl → AccessControl
unfolding strip lower
add_rule id rule_type pattern enabled st = record st {
  rules =
      st.rules
      ++ record {
        id = id;
        rule_type = rule_type;
        pattern = lower (strip pattern);
        enabled = enabled;
      }
        ∷ [];
}

-- `RuleService.delete`
unfoldable pub remove_rule : ℕ → AccessControl → Bool × AccessControl
remove_rule id st =
    if any (λ r. r.id == id) st.rules
    then (true, record st { rules = filter (λ r. not (r.id == id)) st.rules })
    else (false, st)

-- `SourceRestrictionService.create`
unfoldable pub add_restriction : ℕ → Text → Bool → AccessControl → AccessControl
add_restriction id cidr enabled st = record st {
  restrictions = st.restrictions ++ record { id = id; cidr = cidr; enabled = enabled } ∷ [];
}

-- `SourceRestrictionService.delete`
unfoldable pub remove_restriction : ℕ → AccessControl → Bool × AccessControl
remove_restriction id st =
    if any (λ r. r.id == id) st.restrictions
    then (true, record st { restrictions = filter (λ r. not (r.id == id)) st.restrictions })
    else (false, st)
