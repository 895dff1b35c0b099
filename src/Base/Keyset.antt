-- ===== src/Base/Keyset.antt =====
-- Rows read by pages, newest first: `ORDER BY at DESC, id DESC`, a limit, and the condition of a cursor that
-- continues behind a row.
pub mod Order
pub mod Cut
use ai_api.Base.{ℕ, zero, suc, Bool, List, [], ◌∷◌, if◌then◌else◌, ltb, ◌==◌, ◌&&◌, ◌||◌}

module _ {ℓ} {A : Type ℓ} (id at : A → ℕ) where
  -- whether a row stands before another
  abbrev pub is_newer : A → A → Bool
  is_newer r s = ltb (at s) (at r) || (at s == at r && ltb (id s) (id r))

  unfoldable pub insert_newer : A → List A → List A
  insert_newer r [] = r ∷ []
  insert_newer r (s ∷ rows) = if is_newer r s then r ∷ s ∷ rows else s ∷ insert_newer r rows

  unfoldable pub order_rows : List A → List A
  unfolding insert_newer
  order_rows [] = []
  order_rows (r ∷ rows) = insert_newer r (order_rows rows)

  -- the condition of the cursor, by the instant and the id of its row
  abbrev pub follows : ℕ → ℕ → A → Bool
  follows pivot before r = ltb (at r) pivot || (at r == pivot && ltb (id r) before)

-- `LIMIT`
unfoldable pub limit_rows {ℓ} : {A : Type ℓ} → ℕ → List A → List A
limit_rows n [] = []
limit_rows zero (r ∷ rows) = []
limit_rows (suc n) (r ∷ rows) = r ∷ limit_rows n rows
