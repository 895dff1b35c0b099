-- ===== src/Members/Creation.antt =====
-- The creation of a member in src/ai_api/services/members.py, with the policy of passwords of
-- src/ai_api/auth/local.py.
use ai_api.Base.{
  is_none, ℕ, Bool, true, false, not, Option, none, some, List, [], ◌∷◌, ◌++◌, any, length,
  if◌then◌else◌, leb, ◌&&◌, Try, ok, raise, text_eq, lower,
}
use ai_api.Models.{Text, Instant, Member, MemberStatus}
use ai_api.Access.ModelAccess.{member_of}
use ai_api.Base.Strings.{strip}
use ai_api.Invitations.{issue_invitation}
use ai_api.TagRules.{Regex}
use ai_api.TagRules.Editing.{apply_to_new_member}
use ai_api.Members.Tables.{
  MemberProvider, is_local, MemberDb, MemberError, with_members, already_exists, value_error,
}

abbrev min_length : ℕ
min_length = 10

-- `COMMON_PASSWORDS`
abbrev common_passwords : List Text
common_passwords =
    (b'p' ∷ b'a' ∷ b's' ∷ b's' ∷ b'w' ∷ b'o' ∷ b'r' ∷ b'd' ∷ b'1' ∷ b'2' ∷ b'3' ∷ [])
    ∷ (b'q' ∷ b'w' ∷ b'e' ∷ b'r' ∷ b't' ∷ b'y' ∷ b'1' ∷ b'2' ∷ b'3' ∷ b'4' ∷ b'5' ∷ [])
    ∷ (b'l' ∷ b'e' ∷ b't' ∷ b'm' ∷ b'e' ∷ b'i' ∷ b'n' ∷ b'2' ∷ b'0' ∷ b'2' ∷ b'4' ∷ [])
    ∷ (b'1' ∷ b'2' ∷ b'3' ∷ b'4' ∷ b'5' ∷ b'6' ∷ b'7' ∷ b'8' ∷ b'9' ∷ b'0' ∷ b'1' ∷ [])
    ∷ (b'a' ∷ b'd' ∷ b'm' ∷ b'i' ∷ b'n' ∷ b'1' ∷ b'2' ∷ b'3' ∷ b'4' ∷ b'5' ∷ [])
    ∷ (b'i' ∷ b'l' ∷ b'o' ∷ b'v' ∷ b'e' ∷ b'y' ∷ b'o' ∷ b'u' ∷ b'1' ∷ b'2' ∷ b'3' ∷ [])
    ∷ (b'w' ∷ b'e' ∷ b'l' ∷ b'c' ∷ b'o' ∷ b'm' ∷ b'e' ∷ b'1' ∷ b'2' ∷ b'3' ∷ b'!' ∷ [])
    ∷ (b'p' ∷ b'a' ∷ b's' ∷ b's' ∷ b'w' ∷ b'0' ∷ b'r' ∷ b'd' ∷ b'!' ∷ b'!' ∷ [])
    ∷ []

-- `enforce_policy` passes
unfoldable enforce_policy : Text → Bool
unfolding text_eq lower
enforce_policy plaintext =
    leb min_length (length plaintext) && not (member_of common_passwords (lower plaintext))

-- what `create` is given beside the email; a password that is empty is none to `if initial_password`
pub record NewMember : Type 0 where
  pub provider : MemberProvider
  pub initial_password : Option Text
  pub send_invitation : Bool

abbrev is_given : Option Text → Bool
is_given (some (_ ∷ _)) = true
is_given _ = false

abbrev text_of : Option Text → Text
text_of none = []
text_of (some s) = s

-- the check of the password
unfoldable accepts_password : NewMember → Bool
unfolding enforce_policy
accepts_password n =
    if is_local n.provider
    then (if is_given n.initial_password
        then enforce_policy (text_of n.initial_password)
        else n.send_invitation)
    else true

unfoldable new_member : ℕ → Text → Member
new_member id email = record {
  id = id;
  email = email;
  status = MemberStatus.active;
  is_admin = false;
}

-- `email.strip().lower()`
unfoldable normal_email : Text → Text
unfolding strip lower
normal_email email = lower (strip email)

abbrev invites : NewMember → Bool
invites n = is_local n.provider && (is_none n.initial_password && n.send_invitation)

-- the rules of tags, over the tables of the database
unfoldable tag_new_member : Regex → Member → MemberDb → MemberDb
unfolding apply_to_new_member
tag_new_member re m db =
    let r = apply_to_new_member re m.id m.email db.tag_rules (record {
      members = db.store.members;
      member_tags = db.member_tags;
      audit_log = db.store.audit_log;
    }) in
    record db {
      store = record db.store { audit_log = r.1.audit_log };
      member_tags = r.1.member_tags;
    }

-- `create`, with whether an invitation is issued
unfoldable create_member :
    Regex
    → ℕ
    → ℕ
    → Instant
    → Text
    → NewMember
    → MemberDb
    → Try MemberError (Member × Bool) × MemberDb
unfolding accepts_password new_member normal_email tag_new_member with_members text_eq
    issue_invitation
create_member re id fingerprint now email n db =
    if any (λ m. text_eq m.email (normal_email email)) db.store.members
    then (raise already_exists, db)
    else if accepts_password n
    then (let m = new_member id (normal_email email) in
        let db' = tag_new_member re m (with_members (db.store.members ++ m ∷ []) db) in
        (
          ok (m, invites n),
          if invites n
              then record db' { invitations = issue_invitation fingerprint id now db'.invitations }
              else db',
        ))
    else (raise value_error, db)
