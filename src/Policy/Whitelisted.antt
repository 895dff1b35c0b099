-- ===== src/Policy/Whitelisted.antt =====
-- The edits of src/ai_api/services/access_control.py in one sequence, and the emails that
-- src/ai_api/auth/policy.py lets in by the whitelist.
use mathlib.Core.Path.{subst}
use ai_api.Base.{
  ℕ, ◌≡◌, ◌∙◌, refl, sym, ap, inl, inr, Bool, true, false, not, List, [], ◌∷◌, ◌++◌, filter, any,
  if◌then◌else◌, arith, text_eq, text_eq_sound, Bool-cases, any-append, any-filter,
}
use ai_api.Models.{Text, Member}
use ai_api.Members.{admin_count}
use ai_api.Policy.{RuleType, normalize_email, domain_of, rule_matches, is_email_allowed}
use ai_api.Policy.Editing.{
  AccessControl, on_list, add_email, remove_email, add_rule, remove_rule, add_restriction,
  remove_restriction,
}

pub data Call : Type 0 where
  add_call remove_call : Text → Call
  add_rule_call : ℕ → RuleType → Text → Bool → Call
  remove_rule_call : ℕ → Call
  add_restriction_call : ℕ → Text → Bool → Call
  remove_restriction_call : ℕ → Call

unfoldable pub run : Call → AccessControl → AccessControl
run (add_call email) st = add_email email st
run (remove_call email) st = (remove_email email st).1
run (add_rule_call id rule_type pattern enabled) st = add_rule id rule_type pattern enabled st
run (remove_rule_call id) st = (remove_rule id st).1
run (add_restriction_call id cidr enabled) st = add_restriction id cidr enabled st
run (remove_restriction_call id) st = (remove_restriction id st).1

unfoldable pub run_all : List Call → AccessControl → AccessControl
run_all [] st = st
run_all (c ∷ calls) st = run_all calls (run c st)

-- What the edits say of an email, by its normal form: the last that names it decides.
abbrev pub says : Text → Call → Bool → Bool
says email (add_call other) before = if text_eq (normalize_email other) email then true else before
says email (remove_call other) before =
    if text_eq (normalize_email other) email then false else before
says email _ before = before

pub last_word : Text → List Call → Bool → Bool
last_word email [] before = before
last_word email (c ∷ calls) before = last_word email calls (says email c before)

text_eq_symmetric : (s t : Text) → text_eq s t ≡ text_eq t s
unfolding text_eq
text_eq_symmetric [] [] = refl
text_eq_symmetric [] (d ∷ t) = refl
text_eq_symmetric (c ∷ s) [] = refl
text_eq_symmetric (c ∷ s) (d ∷ t) = ground (arith, text_eq_symmetric s t)

-- an entry that is named
named :
    (n email : Text) (whitelist : List Text) (b : Bool)
    → on_list n whitelist ≡ b
    → on_list email whitelist ≡ (if text_eq n email then b else on_list email whitelist)
named n email whitelist b h = elim (Bool-cases (text_eq n email)) [
  | inl same ↦ rw same (subst (λ e. on_list e whitelist ≡ b) (text_eq_sound n email same) h)
  | inr other ↦ rw other refl
]

on_list-append :
    (n email : Text) (whitelist : List Text)
    → on_list email (whitelist ++ n ∷ [])
      ≡ (if text_eq n email then true else on_list email whitelist)
on_list-append n email whitelist =
    any-append (λ w. text_eq w email) whitelist (n ∷ []) ∙ elim (Bool-cases (text_eq n email)) [
      | inl same ↦ ground (arith, same)
      | inr other ↦ ground (arith, other)
    ]

on_list-filter :
    (n email : Text) (whitelist : List Text)
    → on_list email (filter (λ w. not (text_eq w n)) whitelist)
      ≡ (if text_eq n email then false else on_list email whitelist)
on_list-filter n email whitelist = elim (Bool-cases (text_eq n email)) [
  | inl same ↦
      let e = text_eq_sound n email same in
      rw same (
        any-filter (λ w. text_eq w email) (λ w. not (text_eq w n)) false whitelist
          (λ w h. ground (arith, subst (λ m. text_eq w m ≡ true) (sym e) h))
        ∙ ground arith)
  | inr other ↦ rw other (
      any-filter (λ w. text_eq w email) (λ w. not (text_eq w n)) true whitelist
        (λ w h. ground (
          arith,
          subst (λ m. text_eq m n ≡ false) (sym (text_eq_sound w email h))
              (text_eq_symmetric email n ∙ other),
        ))
      ∙ ground arith)
]

on_list-add_email :
    (email other : Text) (st : AccessControl)
    → on_list email (add_email other st).whitelist
      ≡ (if text_eq (normalize_email other) email then true else on_list email st.whitelist)
unfolding add_email
on_list-add_email email other st =
    let n = normalize_email other in
    elim (Bool-cases (on_list n st.whitelist)) [
      | inl there ↦ rw there (named n email st.whitelist true there)
      | inr new ↦ rw new (on_list-append n email st.whitelist)
    ]

on_list-remove_email :
    (email other : Text) (st : AccessControl)
    → on_list email (remove_email other st).1.whitelist
      ≡ (if text_eq (normalize_email other) email then false else on_list email st.whitelist)
unfolding remove_email
on_list-remove_email email other st =
    let n = normalize_email other in
    elim (Bool-cases (on_list n st.whitelist)) [
      | inl there ↦ rw there (on_list-filter n email st.whitelist)
      | inr missing ↦ rw missing (named n email st.whitelist false missing)
    ]

on_list-run :
    (email : Text) (c : Call) (st : AccessControl)
    → on_list email (run c st).whitelist ≡ says email c (on_list email st.whitelist)
unfolding run add_rule remove_rule add_restriction remove_restriction
on_list-run email (add_call other) st = on_list-add_email email other st
on_list-run email (remove_call other) st = on_list-remove_email email other st
on_list-run email (add_rule_call id rule_type pattern enabled) st = refl
on_list-run email (remove_rule_call id) st = ground arith
on_list-run email (add_restriction_call id cidr enabled) st = refl
on_list-run email (remove_restriction_call id) st = ground arith

on_list-run_all :
    (email : Text) (calls : List Call) (st : AccessControl)
    → on_list email (run_all calls st).whitelist
      ≡ last_word email calls (on_list email st.whitelist)
unfolding run_all last_word
on_list-run_all email [] st = refl
on_list-run_all email (c ∷ calls) st =
    on_list-run_all email calls (run c st) ∙ ap (last_word email calls) (on_list-run email c st)

-- The whitelist is what its edits say: after any sequence of edits of the whitelist, the rules and the restrictions,
-- while no administrator is active, an email that no rule matches is let in exactly when the last addition or
-- removal that names it, up to white space at the ends and to the case, was an addition, or, where none names it,
-- when it was on the list before.
pub is_email_allowed-run_all :
    (email : Text) (calls : List Call) (st : AccessControl) (members : List Member)
    → admin_count members ≡ 0
    → any (rule_matches (domain_of (normalize_email email))) (run_all calls st).rules ≡ false
    → is_email_allowed email (run_all calls st).rules members (run_all calls st).whitelist
      ≡ last_word (normalize_email email) calls (on_list (normalize_email email) st.whitelist)
unfolding is_email_allowed
is_email_allowed-run_all email calls st members bootstrap unmatched =
    ground (arith, bootstrap, unmatched, on_list-run_all (normalize_email email) calls st)
