-- ===== src/Records.antt =====
-- src/ai_api/services/records.py: the log of calls, newest first, in pages that a cursor continues. The texts of
-- a record, its counts of tokens and its cost are left out. Fresh ids are arguments.
pub mod Pages
mod Tests
use ai_api.Base.{
  ℕ, zero, suc, Bool, true, false, Option, none, some, List, [], ◌∷◌, ◌++◌, map, filter, any,
  if◌then◌else◌, leb, ltb, ◌==◌, ◌&&◌, ◌||◌, get, text_eq,
}
use ai_api.Base.Keyset.{order_rows, follows, limit_rows}
use ai_api.Models.{Text, Instant, CallOutcome, Allocation}

pub record CallRow : Type 0 where
  pub id : ℕ
  pub allocation_id : Option ℕ
  pub subject : Option Text
  pub started_at : Instant
  pub outcome : CallOutcome

abbrev pub row_id : CallRow → ℕ
row_id r = r.id

-- `record_call`
unfoldable pub record_call : CallRow → List CallRow → List CallRow
record_call r rows = rows ++ r ∷ []

abbrev pub row_at : CallRow → Instant
row_at r = r.started_at

-- the rows behind a cursor; none, where no row has its id
unfoldable pub behind : List CallRow → Option ℕ → List CallRow → List CallRow
behind table none rows = rows
behind table (some before) rows = elim (get row_id before table) [
  | none ↦ []
  | some pivot ↦ filter (follows row_id row_at pivot.started_at before) rows
]

-- the query that both readings make, for the rows that their conditions select
unfoldable pub page : (CallRow → Bool) → ℕ → Option ℕ → List CallRow → List CallRow
unfolding behind order_rows limit_rows
page selects limit before table =
    limit_rows limit (order_rows row_id row_at (behind table before (filter selects table)))

abbrev pub of_allocation : ℕ → CallRow → Bool
of_allocation id r = elim r.allocation_id [ none ↦ false | some a ↦ a == id ]

-- `list_for_allocation`
unfoldable pub list_for_allocation : ℕ → ℕ → Option ℕ → List CallRow → List CallRow
unfolding page
list_for_allocation id limit before table = page (of_allocation id) limit before table

-- the optional conditions of `list_records`
pub record Conditions : Type 0 where
  pub member_id : Option ℕ
  pub allocation_id : Option ℕ
  pub subject : Option Text
  pub from_ : Option Instant
  pub to : Option Instant
  pub outcome : Option (CallOutcome → Bool)

abbrev pub unless_none {ℓ} : {A : Type ℓ} → Option A → (A → Bool) → Bool
unless_none none p = true
unless_none (some a) p = p a

abbrev pub of_member : List Allocation → ℕ → CallRow → Bool
of_member allocations member r =
    any (λ a. a.member_id == member && of_allocation a.id r) allocations

abbrev pub has_subject : Text → CallRow → Bool
has_subject subject r = elim r.subject [ none ↦ false | some s ↦ text_eq s subject ]

unfoldable pub selects : Conditions → List Allocation → CallRow → Bool
unfolding text_eq
selects c allocations r =
    unless_none c.allocation_id (λ id. of_allocation id r)
    && (unless_none c.member_id (λ member. of_member allocations member r)
        && (unless_none c.subject (λ s. has_subject s r)
            && (unless_none c.from_ (λ at. leb at r.started_at)
                && (unless_none c.to (λ at. ltb r.started_at at)
                    && unless_none c.outcome (λ is. is r.outcome)))))

-- `list_records`
unfoldable pub list_records :
    Conditions → List Allocation → ℕ → Option ℕ → List CallRow → List CallRow
unfolding selects page
list_records c allocations limit before table = page (selects c allocations) limit before table
