-- ===== src/Pricing/History.antt =====
-- The price list is append-only: what a version of later effect changes, and what it does not.
use ai_api.Base.{
  ℕ, ◌≤◌, ◌<◌, ◌≡◌, ◌⊎◌, inl, inr, refl, ap, ◌∙◌, Bool, true, false, none, some, List, [], ◌∷◌,
  ◌++◌, arith, any, All, filter-append, text_eq, text_eq_refl, text_eq_sound, ◌&&◌, Bool-cases, Try,
  ok, raise, Try-cases, leb,
}
use mathlib.Core.List.{append-nil}
use ai_api.Models.{Text, Instant}
use ai_api.Pricing.{
  PriceList, price_of, has_key, in_effect, latest, latest_from, effective_rows,
  lookup_price_for_call, newest_first, first,
}
use ai_api.Pricing.Selection.{first-newest_first}
use ai_api.Pricing.Versions.{
  Version, PriceStore, PriceError, Prices, prices_of, row_of, same_version, version_added, insert,
  reply, create_version, duplicate_version,
}

-- what `create_version` does: it refuses and leaves the store, or it appends the row of the version, which
-- no row of the list has the provider, the model and the instant of
pub Created : ℕ → Instant → Version → PriceStore → Type 0
Created id now v st =
    ((e : PriceError) × (create_version id now v st ≡ (raise e, st)))
    ⊎ ((p : Prices) × (any (same_version (row_of id now v p)) st.price_list ≡ false)
        × ((create_version id now v st).1.price_list ≡ st.price_list ++ row_of id now v p ∷ [])
        × ((b : Bool) × ((create_version id now v st).0 ≡ ok (row_of id now v p, b))))

insert_taken :
    (row : PriceList) (st : PriceStore)
    → any (same_version row) st.price_list ≡ true
    → insert row st ≡ (raise duplicate_version, st)
unfolding insert
insert_taken row st h = ground (arith, h)

insert_free :
    (row : PriceList) (st : PriceStore)
    → any (same_version row) st.price_list ≡ false
    → insert row st ≡ (
      ok row,
      record st {
        price_list = st.price_list ++ row ∷ [];
        audit_log = st.audit_log ++ version_added ∷ [];
      },
    )
unfolding insert
insert_free row st h = ground (arith, h)

create_version-insert :
    (id : ℕ) (now : Instant) (v : Version) (st : PriceStore) (p : Prices)
    → prices_of v ≡ ok p
    → create_version id now v st ≡ reply now (insert (row_of id now v p) st)
unfolding create_version
create_version-insert id now v st p good = rw (good, create_version) refl

create_version-cases :
    (id : ℕ) (now : Instant) (v : Version) (st : PriceStore) → Created id now v st
unfolding Created create_version reply
create_version-cases id now v st = elim (Try-cases (prices_of v)) [
  | inr (e, bad) ↦ inl (e, ground (arith, bad))
  | inl (p, good) ↦
      let row = row_of id now v p in
      let same = create_version-insert id now v st p good in
      elim (Bool-cases (any (same_version row) st.price_list)) [
        | inl taken ↦ inl (duplicate_version, same ∙ ap (reply now) (insert_taken row st taken))
        | inr free ↦
            let answer = same ∙ ap (reply now) (insert_free row st free) in
            inr (p, free, ap (λ r. r.1.price_list) answer, (_, ap (λ r. r.0) answer))
      ]
]

effective_rows-append_other :
    (p m : Text) (time : Instant) (rows : List PriceList) (row : PriceList)
    → (has_key p m row && in_effect time row) ≡ false
    → effective_rows p m time (rows ++ row ∷ []) ≡ effective_rows p m time rows
effective_rows-append_other p m time rows row h =
    filter-append _ rows (row ∷ []) ∙ ground (arith, h, append-nil (effective_rows p m time rows))

-- a call of `create_version`
pub record Call : Type 0 where
  pub id : ℕ
  pub now : Instant
  pub version : Version

pub run_all : List Call → PriceStore → PriceStore
run_all [] st = st
run_all (c ∷ calls) st = run_all calls (create_version c.id c.now c.version st).1

-- a version that is not one of the key's, or takes effect after an instant
abbrev pub Beside : Text → Text → Instant → Call → Type 0
Beside p m time c =
    (text_eq c.version.provider p && text_eq c.version.model m && leb c.version.effective_from time)
    ≡ false

lookup-create_version :
    (p m : Text) (time : Instant) (c : Call) (st : PriceStore)
    → Beside p m time c
    → lookup_price_for_call p m time (create_version c.id c.now c.version st).1.price_list
      ≡ lookup_price_for_call p m time st.price_list
unfolding lookup_price_for_call row_of Created
lookup-create_version p m time c st h = elim (create_version-cases c.id c.now c.version st) [
  | inl (e, refused) ↦ ap (λ r. lookup_price_for_call p m time r.1.price_list) refused
  | inr (prices, _, appended, _) ↦
      ap (lookup_price_for_call p m time) appended
      ∙ ap
          (λ rows. elim (first (newest_first rows)) [
            | none ↦ none
            | some row ↦ some (price_of row)
          ])
          (effective_rows-append_other p m time st.price_list (row_of c.id c.now c.version prices)
            (ground (arith, h)))
]

-- The price of a past call stays: after any sequence of calls of `create_version`, accepted or refused, whose
-- versions are of another provider or model or take effect after an instant, a call at that instant is billed
-- at the price at which it was billed before.
pub lookup-run_all :
    (provider model : Text) (call_time : Instant) (calls : List Call) (st : PriceStore)
    → All
        (λ c.
          (text_eq c.version.provider provider
            && text_eq c.version.model model
            && leb c.version.effective_from call_time)
          ≡ false)
        calls
    → lookup_price_for_call provider model call_time (run_all calls st).price_list
      ≡ lookup_price_for_call provider model call_time st.price_list
unfolding run_all
lookup-run_all p m time [] st h = refl
lookup-run_all p m time (c ∷ calls) st h =
    lookup-run_all p m time calls (create_version c.id c.now c.version st).1 h.1
    ∙ lookup-create_version p m time c st h.0

latest_from-append :
    (best : PriceList) (xs : List PriceList) (row : PriceList)
    → best.effective_from < row.effective_from
    → All (λ r. r.effective_from < row.effective_from) xs
    → latest_from best (xs ++ row ∷ []) ≡ row
unfolding latest_from
latest_from-append best [] row h k = ground (arith, h)
latest_from-append best (x ∷ xs) row h k =
    ground
      (arith, h, k.0, latest_from-append best xs row h k.1, latest_from-append x xs row k.0 k.1)

latest-append :
    (xs : List PriceList) (row : PriceList)
    → All (λ r. r.effective_from < row.effective_from) xs
    → latest (xs ++ row ∷ []) ≡ some row
unfolding latest latest_from
latest-append [] row h = refl
latest-append (x ∷ xs) row h = ap some (latest_from-append x xs row h.0 h.1)

-- of the rows of a key up to an instant, none is as late as one that the unique constraint lets in
older_rows :
    (p m : Text) (time : Instant) (row : PriceList) (rows : List PriceList)
    → (text_eq row.provider p && text_eq row.model m) ≡ true
    → any (same_version row) rows ≡ false
    → All
        (λ r. (has_key p m r && in_effect time r) ≡ true → r.effective_from ≤ row.effective_from)
        rows
    → All (λ r. r.effective_from < row.effective_from) (effective_rows p m time rows)
older_rows p m time row [] key free h = tt
older_rows p m time row (r ∷ rows) key free h =
    let rest = older_rows p m time row rows key (ground (arith, free)) h.1 in
    elim (Bool-cases (has_key p m r && in_effect time r)) [
      | inr dropped ↦ rw dropped rest
      | inl kept ↦ rw kept (
        ground
            (arith, kept, free, key, h.0, text_eq_sound row.provider p, text_eq_sound row.model m),
        rest,
      )
    ]

row_of_reply :
    (answer : Try PriceError (PriceList × Bool)) (new row : PriceList) (b current : Bool)
    → answer ≡ ok (new, b)
    → answer ≡ ok (row, current)
    → new ≡ row
row_of_reply answer new row b current h k = cc

-- a new row that is the latest of its key up to an instant
lookup-append_latest :
    (p m : Text) (time : Instant) (rows : List PriceList) (row : PriceList)
    → (has_key p m row && in_effect time row) ≡ true
    → All (λ r. r.effective_from < row.effective_from) (effective_rows p m time rows)
    → lookup_price_for_call p m time (rows ++ row ∷ []) ≡ some (price_of row)
unfolding lookup_price_for_call
lookup-append_latest p m time rows row key older =
    ap (λ o. elim o [ none ↦ none | some r ↦ some (price_of r) ])
      (first-newest_first (effective_rows p m time (rows ++ row ∷ []))
        ∙ ap latest (filter-append _ rows (row ∷ []) ∙ ground (arith, key))
        ∙ latest-append (effective_rows p m time rows) row older)

-- A version that is accepted is the one that a call is billed by: at each instant from which it is in
-- effect on, as long as no row of its provider and model that was there before takes effect after it and up
-- to that instant.
pub create_version-lookup :
    (id : ℕ) (now time : Instant) (v : Version) (st : PriceStore) (row : PriceList) (current : Bool)
    → (create_version id now v st).0 ≡ ok (row, current)
    → v.effective_from ≤ time
    → All
        (λ r.
          (has_key v.provider v.model r && in_effect time r) ≡ true
          → r.effective_from ≤ v.effective_from)
        st.price_list
    → lookup_price_for_call v.provider v.model time (create_version id now v st).1.price_list
      ≡ some (price_of row)
unfolding Created lookup_price_for_call row_of
create_version-lookup id now time v st row current accepted le h =
    elim (create_version-cases id now v st) [
      | inl (e, refused) ↦ absurd (ground (arith, refused, accepted))
      | inr (p, free, appended, (b, replied)) ↦
          let new = row_of id now v p in
          ap (lookup_price_for_call v.provider v.model time) appended
          ∙ lookup-append_latest v.provider v.model time st.price_list new
              (ground (arith, le, text_eq_refl v.provider, text_eq_refl v.model))
              (older_rows v.provider v.model time new st.price_list
                (ground (arith, text_eq_refl v.provider, text_eq_refl v.model)) free h)
          ∙ ap (λ r. some (price_of r)) (row_of_reply _ new row b current replied accepted)
    ]
