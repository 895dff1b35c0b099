-- ===== src/Records/Pages.antt =====
-- The pages of src/ai_api/services/records.py that a reader gets one after the other.
use ai_api.Base.{
  ℕ, zero, suc, ◌≤◌, ◌≡◌, ◌⊎◌, inl, inr, refl, ap, sym, ◌∙◌, Bool, Option, none, some, List, [],
  ◌∷◌, ◌++◌, map, filter, arith, length, get,
}
use mathlib.Core.Path.{subst}
use mathlib.Core.List.{append_assoc}
use ai_api.Base.UniqueKeys.{Distinct, get-Has}
use ai_api.Base.Keyset.{order_rows, limit_rows, follows}
use ai_api.Base.Keyset.Cut.{drop_rows, limit-drop, length-drop, whole, Has-whole, order-follows}
use ai_api.Records.{CallRow, row_id, row_at, behind, page}

behind_found :
    (table : List CallRow) (before : ℕ) (pivot : CallRow) (rows : List CallRow)
    → get row_id before table ≡ some pivot
    → behind table (some before) rows ≡ filter (follows row_id row_at pivot.started_at before) rows
unfolding behind
behind_found table before pivot rows found = rw (found, behind) refl

-- A page behind a row is what follows the row in the whole list: where ids are distinct, the page whose cursor
-- is the id of a row of the list starts right behind that row, and skips and repeats nothing.
pub page_behind :
    (selects : CallRow → Bool) (limit : ℕ) (table ws : List CallRow) (r : CallRow)
    (ys : List CallRow)
    → Distinct (map row_id table)
    → whole row_id row_at selects table ≡ ws ++ r ∷ ys
    → page selects limit (some r.id) table ≡ limit_rows limit ys
unfolding page
page_behind selects limit table ws r ys distinct cut =
    let found =
      get-Has row_id table r distinct (Has-whole row_id row_at selects table ws r ys cut) in
    ap (λ rows. limit_rows limit (order_rows row_id row_at rows))
      (behind_found table r.id r (filter selects table) found)
    ∙ ap (limit_rows limit) (order-follows row_id row_at selects table ws r ys distinct cut)

-- the id of the last row of a page
abbrev pub cursor : CallRow → List CallRow → ℕ
cursor r [] = r.id
cursor r (s ∷ rows) = cursor s rows

-- a reader who follows the cursor of each page until a page is empty
pub follow : (CallRow → Bool) → ℕ → ℕ → Option ℕ → List CallRow → List CallRow
follow selects limit zero before table = []
follow selects limit (suc fuel) before table = elim (page selects limit before table) [
  | [] ↦ []
  | r ∷ rows ↦ (r ∷ rows) ++ follow selects limit fuel (some (cursor r rows)) table
]

-- a cursor at the end of some rows
abbrev At : List CallRow → Option ℕ → Type 0
At xs before =
    ((xs ≡ []) × (before ≡ none))
    ⊎ ((ws : List CallRow) × (r : CallRow) × (xs ≡ ws ++ r ∷ []) × (before ≡ some r.id))

-- the end of rows that are not empty is their cursor
At-cursor :
    (xs : List CallRow) (r : CallRow) (rows : List CallRow)
    → At (xs ++ r ∷ rows) (some (cursor r rows))
At-cursor xs r [] = inr (xs, r, refl, refl)
At-cursor xs r (s ∷ rows) =
    subst (λ l. At l (some (cursor s rows))) (append_assoc xs (r ∷ []) (s ∷ rows))
      (At-cursor (xs ++ r ∷ []) s rows)

-- the page at a cursor
page_here :
    (selects : CallRow → Bool) (limit : ℕ) (before : Option ℕ) (table xs ys : List CallRow)
    → Distinct (map row_id table)
    → whole row_id row_at selects table ≡ xs ++ ys
    → At xs before
    → page selects limit before table ≡ limit_rows limit ys
unfolding page behind
page_here selects limit before table xs ys distinct cut at = elim at [
  | inl (empty, start) ↦
      ap (λ b. page selects limit b table) start
      ∙ ap (limit_rows limit) (cut ∙ ap (λ l. l ++ ys) empty)
  | inr (ws, r, ends, stop) ↦
      ap (λ b. page selects limit b table) stop
      ∙ page_behind selects limit table ws r ys distinct
          (cut ∙ ap (λ l. l ++ ys) ends ∙ append_assoc ws (r ∷ []) ys)
]

-- a turn of the reader, on the page that it gets
abbrev read_on : (CallRow → Bool) → ℕ → ℕ → List CallRow → List CallRow → List CallRow
read_on selects limit fuel table got = elim got [
  | [] ↦ []
  | r ∷ rows ↦ (r ∷ rows) ++ follow selects (suc limit) fuel (some (cursor r rows)) table
]

follow_here :
    (selects : CallRow → Bool) (limit fuel : ℕ) (before : Option ℕ) (table xs ys : List CallRow)
    → Distinct (map row_id table)
    → whole row_id row_at selects table ≡ xs ++ ys
    → At xs before
    → length ys ≤ fuel
    → follow selects (suc limit) (suc fuel) before table ≡ ys
unfolding follow limit_rows
follow_here selects limit fuel before table xs [] distinct cut at enough =
    ap (read_on selects limit fuel table)
      (page_here selects (suc limit) before table xs [] distinct cut at)
follow_here selects limit zero before table xs (y ∷ ys) distinct cut at enough =
    absurd (omega (arith, enough))
follow_here selects limit (suc fuel) before table xs (y ∷ ys) distinct cut at enough =
    let read = limit_rows limit ys in
    let left = drop_rows limit ys in
    let all = limit-drop limit ys in
    ap (read_on selects limit (suc fuel) table)
      (page_here selects (suc limit) before table xs (y ∷ ys) distinct cut at)
    ∙ ap (λ rest. (y ∷ read) ++ rest)
        (follow_here selects limit fuel (some (cursor y read)) table (xs ++ y ∷ read) left distinct
          (cut ∙ sym (append_assoc xs (y ∷ read) left ∙ ap (λ l. xs ++ y ∷ l) all))
          (At-cursor xs y read) (omega (arith, length-drop limit ys, enough)))
    ∙ ap (λ l. y ∷ l) all

-- The pages make up the whole list: where ids are distinct, a reader who starts without a cursor and follows
-- that of each page, by pages of a positive limit, gets every selected row once, in the order of the list, and
-- stops within one page more than there are rows.
pub follow-whole :
    (selects : CallRow → Bool) (limit : ℕ) (table : List CallRow)
    → Distinct (map row_id table)
    → follow selects (suc limit) (suc (length (whole row_id row_at selects table))) none table
      ≡ whole row_id row_at selects table
follow-whole selects limit table distinct =
    follow_here selects limit (length (whole row_id row_at selects table)) none table []
      (whole row_id row_at selects table) distinct refl (inl (refl, refl)) (omega arith)
