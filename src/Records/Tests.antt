-- ===== src/Records/Tests.antt =====
-- Three calls, two of them at the same instant, read in pages of two.
use ai_api.Base.{◌≡◌, refl, ℕ, suc, none, some, List, [], ◌∷◌, length}
use ai_api.Models.{Instant, CallOutcome}
use ai_api.Records.{
  CallRow, row_id, row_at, of_allocation, behind, page, list_for_allocation, selects, list_records,
}
use ai_api.Base.Keyset.{order_rows, insert_newer, limit_rows}
use ai_api.Base.Keyset.Cut.{whole}
use ai_api.Records.Pages.{follow, follow-whole}

abbrev row : ℕ → Instant → CallRow
row id at = record {
  id = id;
  allocation_id = some 1;
  subject = none;
  started_at = at;
  outcome = CallOutcome.success;
}

abbrev table : List CallRow
table = row 5 100 ∷ row 7 100 ∷ row 6 200 ∷ []

first_page : list_for_allocation 1 2 none table ≡ row 6 200 ∷ row 7 100 ∷ []
unfolding list_for_allocation page behind order_rows insert_newer limit_rows
first_page = refl

second_page : list_for_allocation 1 2 (some 7) table ≡ row 5 100 ∷ []
unfolding list_for_allocation page behind order_rows insert_newer limit_rows
second_page = refl

unknown_cursor : list_for_allocation 1 2 (some 9) table ≡ []
unfolding list_for_allocation page behind order_rows insert_newer limit_rows
unknown_cursor = refl

until_then :
    list_records
      (record {
        member_id = none;
        allocation_id = none;
        subject = none;
        from_ = some 100;
        to = some 200;
        outcome = none;
      })
      []
      1
      none
      table
    ≡ row 7 100 ∷ []
unfolding list_records selects page behind order_rows insert_newer limit_rows
until_then = refl

follow-whole_example :
    follow
      (of_allocation 1)
      2
      (suc (length (whole row_id row_at (of_allocation 1) table)))
      none
      table
    ≡ whole row_id row_at (of_allocation 1) table
follow-whole_example =
    follow-whole (of_allocation 1) 1 table ((refl, (refl, tt)), ((refl, tt), (tt, tt)))
