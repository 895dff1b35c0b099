-- ===== src/Notifications/History.antt =====
-- `list_history` of src/ai_api/services/notifications.py: a page of the records of mails, newest first. What base64
-- and `fromisoformat` make of a cursor is an argument; of an entry, the columns of its record and the count.
use ai_api.Base.{
  ℕ, suc, ◌==◌, Bool, true, false, Option, none, some, List, [], ◌∷◌, map, filter, any, get,
  if◌then◌else◌, ltb, length, text_eq, ◌&&◌,
}
use ai_api.Base.Keyset.{order_rows, follows, limit_rows}
use ai_api.Models.{Text, Instant}
use ai_api.Notifications.{NotificationOutcome}
use ai_api.Notifications.Tables.{NotificationDedupBucket, NotificationRecord, bucket_key}

-- the text of a cursor, and the instant and the id that are read from one, or none where that raises
pub record CursorCodec : Type 0 where
  pub encode : Instant → ℕ → Text
  pub decode : Text → Option (Instant × ℕ)

abbrev pub record_id : NotificationRecord → ℕ
record_id r = r.id

abbrev pub record_at : NotificationRecord → Instant
record_at r = r.created_at

-- `if event_type` and `if outcome`
pub record Filters : Type 0 where
  pub event_type : Option Text
  pub outcome : Option (NotificationOutcome → Bool)

abbrev pub of_type : Option Text → NotificationRecord → Bool
of_type none r = true
of_type (some []) r = true
of_type (some (c ∷ s)) r = text_eq r.event_type (c ∷ s)

abbrev pub of_outcome : Option (NotificationOutcome → Bool) → NotificationRecord → Bool
of_outcome none r = true
of_outcome (some is) r = is r.outcome

abbrev pub matches_filters : Filters → NotificationRecord → Bool
matches_filters f r = of_type f.event_type r && of_outcome f.outcome r

-- where a cursor stands; one that is empty or cannot be read stands for the first page
abbrev pub position : CursorCodec → Option Text → Option (Instant × ℕ)
position codec none = none
position codec (some []) = none
position codec (some (c ∷ s)) = codec.decode (c ∷ s)

abbrev pub rows_behind : Option (Instant × ℕ) → List NotificationRecord → List NotificationRecord
rows_behind none rows = rows
rows_behind (some (at, id)) rows = filter (follows record_id record_at at id) rows

-- the query, which asks for one row more than the page has
unfoldable pub fetched :
    ℕ
    → Option (Instant × ℕ)
    → (NotificationRecord → Bool)
    → List NotificationRecord
    → List NotificationRecord
unfolding order_rows limit_rows
fetched limit at selects table =
    limit_rows (suc limit) (order_rows record_id record_at (rows_behind at (filter selects table)))

abbrev pub in_bucket : ℕ → NotificationRecord → Bool
in_bucket id r = elim r.dedup_bucket_id [ none ↦ false | some b ↦ b == id ]

abbrev is_primary : ℕ → NotificationDedupBucket → Bool
is_primary id b = elim b.primary_record_id [ none ↦ false | some p ↦ p == id ]

-- `primary_ids.get(r.id)`, over the buckets of the page
unfoldable pub primary_bucket : ℕ → List NotificationDedupBucket → Option ℕ
primary_bucket id [] = none
primary_bucket id (b ∷ buckets) = elim (primary_bucket id buckets) [
  | some later ↦ some later
  | none ↦ if is_primary id b then some b.id else none
]

abbrev same_id : Option ℕ → ℕ → Bool
same_id none b = false
same_id (some p) b = p == b

abbrev count_of : Option NotificationDedupBucket → Option ℕ
count_of none = none
count_of (some b) = some b.event_count

-- `bucket_event_count`: shown on the primary record of a bucket only
unfoldable pub bucket_event_count : List NotificationDedupBucket → NotificationRecord → Option ℕ
unfolding primary_bucket
bucket_event_count buckets r = elim r.dedup_bucket_id [
  | none ↦ none
  | some b ↦
      if same_id (primary_bucket r.id buckets) b then count_of (get bucket_key b buckets) else none
]

pub record HistoryEntry : Type 0 where
  pub row : NotificationRecord
  pub bucket_event_count : Option ℕ

-- the buckets of the rows of a page
abbrev pub buckets_of :
    List NotificationRecord → List NotificationDedupBucket → List NotificationDedupBucket
buckets_of page buckets = filter (λ b. any (in_bucket b.id) page) buckets

abbrev pub last_row : NotificationRecord → List NotificationRecord → NotificationRecord
last_row r [] = r
last_row r (s ∷ rows) = last_row s rows

-- `next_cursor`, of the rows that were fetched and the page
unfoldable pub next_cursor :
    CursorCodec → ℕ → List NotificationRecord → List NotificationRecord → Option Text
next_cursor codec limit rows [] = none
next_cursor codec limit rows (r ∷ page) =
    if ltb limit (length rows)
    then some (codec.encode (record_at (last_row r page)) (record_id (last_row r page)))
    else none

-- `list_history`
unfoldable pub list_history :
    CursorCodec
    → ℕ
    → Option Text
    → Filters
    → List NotificationDedupBucket
    → List NotificationRecord
    → List HistoryEntry × Option Text
unfolding fetched bucket_event_count next_cursor text_eq
list_history codec limit cursor filters buckets table =
    let rows = fetched limit (position codec cursor) (matches_filters filters) table in
    let page = limit_rows limit rows in
    (
      map
          (λ r. record {
            row = r;
            bucket_event_count = bucket_event_count (buckets_of page buckets) r;
          })
          page,
      next_cursor codec limit rows page,
    )
