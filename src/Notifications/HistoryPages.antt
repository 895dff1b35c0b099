-- ===== src/Notifications/HistoryPages.antt =====
-- The pages of the history of src/ai_api/services/notifications.py that a reader gets one after the other.
use mathlib.Core.Path.{subst}
use mathlib.Core.List.{append_assoc}
use ai_api.Base.{
  ℕ, zero, suc, ◌≤◌, ◌≡◌, ◌⊎◌, inl, inr, refl, ap, sym, ◌∙◌, Bool, true, false, not, Option, none,
  some, List, [], ◌∷◌, ◌++◌, map, arith, length, is_empty, ltb, if◌then◌else◌,
}
use ai_api.Base.UniqueKeys.{Distinct}
use ai_api.Base.Keyset.{limit_rows}
use ai_api.Base.Keyset.Cut.{
  drop_rows, limit-drop, length-drop, limit-limit, limit-more, whole, order-follows,
}
use ai_api.Models.{Text, Instant}
use ai_api.Notifications.Tables.{NotificationDedupBucket, NotificationRecord}
use ai_api.Notifications.History.{
  CursorCodec, Filters, HistoryEntry, record_id, record_at, matches_filters, position, fetched,
  last_row, next_cursor, list_history,
}

-- a position at the end of some rows
abbrev At : List NotificationRecord → Option (Instant × ℕ) → Type 0
At xs at =
    ((xs ≡ []) × (at ≡ none))
    ⊎ ((ws : List NotificationRecord) × (r : NotificationRecord) × (xs ≡ ws ++ r ∷ [])
        × (at ≡ some (record_at r, record_id r)))

At-last_row :
    (xs : List NotificationRecord) (r : NotificationRecord) (rows : List NotificationRecord)
    → At (xs ++ r ∷ rows) (some (record_at (last_row r rows), record_id (last_row r rows)))
At-last_row xs r [] = inr (xs, r, refl, refl)
At-last_row xs r (s ∷ rows) =
    subst (λ l. At l (some (record_at (last_row s rows), record_id (last_row s rows))))
      (append_assoc xs (r ∷ []) (s ∷ rows)) (At-last_row (xs ++ r ∷ []) s rows)

map-row :
    (count : NotificationRecord → Option ℕ) (page : List NotificationRecord)
    → map
        (λ (e : HistoryEntry). e.row)
        (map (λ r. record { row = r; bucket_event_count = count r }) page)
      ≡ page
map-row count [] = refl
map-row count (r ∷ page) = ap (λ l. r ∷ l) (map-row count page)

module _ (codec : CursorCodec) (filters : Filters) (buckets : List NotificationDedupBucket)
    (table : List NotificationRecord) where
  -- a reader who follows the cursor of each page while there is one
  pub follow : ℕ → ℕ → Option Text → List NotificationRecord
  follow limit zero cursor = []
  follow limit (suc fuel) cursor =
      map (λ e. e.row) (list_history codec limit cursor filters buckets table).0
      ++ elim ((list_history codec limit cursor filters buckets table).1) [
        | none ↦ []
        | some next ↦ follow limit fuel (some next)
      ]

  abbrev pub history : List NotificationRecord
  history = whole record_id record_at (matches_filters filters) table

  fetched_here :
      (limit : ℕ) (at : Option (Instant × ℕ)) (xs ys : List NotificationRecord)
      → Distinct (map record_id table)
      → history ≡ xs ++ ys
      → At xs at
      → fetched limit at (matches_filters filters) table ≡ limit_rows (suc limit) ys
  unfolding fetched
  fetched_here limit at xs ys distinct cut here = elim here [
    | inl (empty, start) ↦
        ap (λ p. fetched limit p (matches_filters filters) table) start
        ∙ ap (limit_rows (suc limit)) (cut ∙ ap (λ l. l ++ ys) empty)
    | inr (ws, r, ends, stop) ↦
        ap (λ p. fetched limit p (matches_filters filters) table) stop
        ∙ ap (limit_rows (suc limit)) (
            order-follows record_id record_at (matches_filters filters) table ws r ys distinct
              (cut ∙ ap (λ l. l ++ ys) ends ∙ append_assoc ws (r ∷ []) ys))
  ]

  rows-list_history :
      (limit : ℕ) (cursor : Option Text) (ys : List NotificationRecord)
      → fetched limit (position codec cursor) (matches_filters filters) table
        ≡ limit_rows (suc limit) ys
      → map (λ (e : HistoryEntry). e.row) (list_history codec limit cursor filters buckets table).0
        ≡ limit_rows limit ys
  unfolding list_history
  rows-list_history limit cursor ys got =
      map-row _
        (limit_rows limit (fetched limit (position codec cursor) (matches_filters filters) table))
      ∙ ap (limit_rows limit) got
      ∙ limit-limit limit ys

  cursor-list_history :
      (limit : ℕ) (cursor : Option Text) (ys : List NotificationRecord)
      → fetched limit (position codec cursor) (matches_filters filters) table
        ≡ limit_rows (suc limit) ys
      → (list_history codec limit cursor filters buckets table).1
        ≡ next_cursor codec limit (limit_rows (suc limit) ys) (limit_rows limit ys)
  unfolding list_history
  cursor-list_history limit cursor ys got =
      ap (λ rows. next_cursor codec limit rows (limit_rows limit rows)) got
      ∙ ap (next_cursor codec limit (limit_rows (suc limit) ys)) (limit-limit limit ys)

  -- what the reader gets from a cursor, or the lack of one, on
  abbrev rest : ℕ → ℕ → Option Text → List NotificationRecord
  rest limit fuel next = elim next [ none ↦ [] | some c ↦ follow limit fuel (some c) ]

  follow-turn :
      (limit fuel : ℕ) (cursor : Option Text) (ys : List NotificationRecord)
      → fetched limit (position codec cursor) (matches_filters filters) table
        ≡ limit_rows (suc limit) ys
      → follow limit (suc fuel) cursor
        ≡ limit_rows limit ys
          ++ rest limit fuel
              (next_cursor codec limit (limit_rows (suc limit) ys) (limit_rows limit ys))
  unfolding follow
  follow-turn limit fuel cursor ys got =
      ap (λ l. l ++ rest limit fuel (list_history codec limit cursor filters buckets table).1)
        (rows-list_history limit cursor ys got)
      ∙ ap (λ n. limit_rows limit ys ++ rest limit fuel n) (cursor-list_history limit cursor ys got)

  -- a page and what the reader gets after it, where a cursor comes exactly when a rest is left
  page_and_rest :
      (limit fuel : ℕ) (more : Bool) (next : Text) (read left ys : List NotificationRecord)
      → read ++ left ≡ ys
      → more ≡ not (is_empty left)
      → follow limit fuel (some next) ≡ left
      → read ++ rest limit fuel (if more then some next else none) ≡ ys
  page_and_rest limit fuel true next read left ys all e later = ap (λ l. read ++ l) later ∙ all
  page_and_rest limit fuel false next read [] ys all e later = all
  page_and_rest limit fuel false next read (r ∷ left) ys all e later = absurd (cc)

  module _
      (read_back : (at : Instant) (id : ℕ)
        → position codec (some (codec.encode at id)) ≡ some (at, id))
      (distinct : Distinct (map record_id table)) where
    follow_here :
        (limit fuel : ℕ) (cursor : Option Text) (xs ys : List NotificationRecord)
        → history ≡ xs ++ ys
        → At xs (position codec cursor)
        → length ys ≤ fuel
        → follow (suc limit) (suc fuel) cursor ≡ ys
    unfolding limit_rows drop_rows next_cursor
    follow_here limit fuel cursor xs [] cut here enough =
        follow-turn (suc limit) fuel cursor []
          (fetched_here (suc limit) (position codec cursor) xs [] distinct cut here)
    follow_here limit zero cursor xs (y ∷ ys) cut here enough = absurd (omega (arith, enough))
    follow_here limit (suc fuel) cursor xs (y ∷ ys) cut here enough =
        follow-turn (suc limit) (suc fuel) cursor (y ∷ ys)
          (fetched_here (suc limit) (position codec cursor) xs (y ∷ ys) distinct cut here)
        ∙ ap (λ l. y ∷ l)
            (page_and_rest (suc limit) (suc fuel)
              (ltb (suc limit) (length (limit_rows (suc (suc limit)) (y ∷ ys))))
              (codec.encode at id) read left ys all (limit-more (suc limit) (y ∷ ys))
              (follow_here limit fuel (some (codec.encode at id)) (xs ++ y ∷ read) left
                (cut ∙ sym (append_assoc xs (y ∷ read) left ∙ ap (λ l. xs ++ y ∷ l) all))
                (subst (At (xs ++ y ∷ read)) (sym (read_back at id)) (At-last_row xs y read))
                (omega (arith, length-drop limit ys, enough))))
      where
        read : List NotificationRecord
        read = limit_rows limit ys

        left : List NotificationRecord
        left = drop_rows limit ys

        at : Instant
        at = record_at (last_row y read)

        id : ℕ
        id = record_id (last_row y read)

        all : read ++ left ≡ ys
        all = limit-drop limit ys

    -- The pages make up the whole history: where ids are distinct and a cursor that is written is read back, a
    -- reader who starts without a cursor, asks for pages of a positive limit and follows the cursor of each page
    -- while there is one gets every record that passes the filters once, newest first, within one page more than
    -- there are such records.
    pub follow-history : (limit : ℕ) → follow (suc limit) (suc (length history)) none ≡ history
    follow-history limit =
        follow_here limit (length history) none [] history refl (inl (refl, refl)) (omega arith)
