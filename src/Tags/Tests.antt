-- ===== src/Tags/Tests.antt =====
-- Tags of two members.
use ai_api.Base.{◌≡◌, refl, ℕ, true, false, none, [], ◌∷◌, ◌++◌, text_eq}
use ai_api.Models.{Text, Member, MemberStatus}
use ai_api.Access.ModelAccess.{TagSource}
use ai_api.Tags.{
  TagDb, validate_tag, match_rest, at_end, sorted, insert_text, text_leb, bulk_apply, valid_ids,
  already_tagged, list_distinct, count_tags, count_tag,
}
use ai_api.Tags.Table.{has_tag}
use ai_api.Tags.Statements.{known}
use ai_api.Tags.Refinement.{
  add_call, remove_call, bulk_call, delete_call, run_all, promised_all, has_tag-run_all,
}

abbrev staff : Text
staff = b's' ∷ []

abbrev guest : Text
guest = b'g' ∷ b'1' ∷ []

abbrev member : ℕ → Member
member id = record { id = id; email = b'e' ∷ []; status = MemberStatus.active; is_admin = false }

abbrev db : TagDb
db = record {
  members = member 7 ∷ member 8 ∷ [];
  member_tags =
      record { member_id = 8; tag = staff; source = TagSource.manual; rule_id = none } ∷ [];
  audit_log = [];
}

valid_tag : validate_tag guest ≡ true
unfolding validate_tag match_rest at_end
valid_tag = refl

invalid_tag : validate_tag (b'1' ∷ b'g' ∷ []) ≡ false
unfolding validate_tag match_rest at_end
invalid_tag = refl

-- `$` matches before a line feed at the end
line_feed : validate_tag (guest ++ 10 ∷ []) ≡ true
unfolding validate_tag match_rest at_end
line_feed = refl

summaries :
    list_distinct (bulk_apply guest (7 ∷ 8 ∷ 9 ∷ []) db).1
    ≡ record { tag = guest; member_count = 2 } ∷ record { tag = staff; member_count = 1 } ∷ []
unfolding list_distinct count_tags count_tag sorted insert_text text_leb bulk_apply valid_ids
    already_tagged validate_tag match_rest at_end text_eq
summaries = refl

has_tag-run_all_example :
    has_tag
      (run_all
        (add_call 7 (staff ∷ guest ∷ []) TagSource.manual none
          ∷ bulk_call guest (8 ∷ 9 ∷ [])
          ∷ remove_call 8 (staff ∷ [])
          ∷ delete_call guest
          ∷ [])
        db).member_tags
      7
      staff
    ≡ promised_all
        (known db.members)
        (add_call 7 (staff ∷ guest ∷ []) TagSource.manual none
          ∷ bulk_call guest (8 ∷ 9 ∷ [])
          ∷ remove_call 8 (staff ∷ [])
          ∷ delete_call guest
          ∷ [])
        (has_tag db.member_tags)
        7
        staff
has_tag-run_all_example =
    has_tag-run_all
      (add_call 7 (staff ∷ guest ∷ []) TagSource.manual none
        ∷ bulk_call guest (8 ∷ 9 ∷ [])
        ∷ remove_call 8 (staff ∷ [])
        ∷ delete_call guest
        ∷ [])
      db 7 staff
