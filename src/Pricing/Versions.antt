-- ===== src/Pricing/Versions.antt =====
-- `create_version` of src/ai_api/services/pricing.py. The fresh id and the present instant are arguments.
use ai_api.Base.{
  is_some, or_zero, ℕ, Bool, Option, none, some, List, [], ◌∷◌, ◌++◌, any, if◌then◌else◌, ◌==◌,
  ◌&&◌, Try, ok, raise, text_eq,
}
use ai_api.Base.Int.{ℤ, pos, negsuc}
use ai_api.Models.{Text, Instant, ActorType, AuditEntry}
use ai_api.Models.Events.{AuditEventType}
use ai_api.Pricing.{PriceList, has_key, select_current_version}

-- `InvalidPriceError`, `DuplicateVersionError`, and the `InvalidOperation` of a comparison with NaN
pub data PriceError : Type 0 where
  invalid_price duplicate_version invalid_operation : PriceError

-- What `Decimal(str(x))` makes of a price that is given, rounded to the columns' scale.
pub data Amount : Type 0 where
  missing not_a_number nan : Amount
  number : ℤ → Amount

-- a new version
pub record Version : Type 0 where
  pub provider : Text
  pub model : Text
  pub input_per_1k : Amount
  pub output_per_1k : Amount
  pub effective_from : Instant
  pub cached_input_per_1k : Amount
  pub price_unit : Option Text
  pub price_per_unit : Amount
  pub source_note : Option Text
  pub created_by : Text

-- a price that must be there: the empty text is not a number
unfoldable pub parse : Amount → Try PriceError Amount
parse missing = raise invalid_price
parse not_a_number = raise invalid_price
parse amount = ok amount

unfoldable pub parse_optional : Amount → Try PriceError Amount
parse_optional not_a_number = raise invalid_price
parse_optional amount = ok amount

-- `amount < 0`; one that is missing is not compared
unfoldable pub check_sign : Amount → Try PriceError (Option ℕ)
check_sign missing = ok none
check_sign (number (pos n)) = ok (some n)
check_sign (number (negsuc n)) = raise invalid_price
check_sign _ = raise invalid_operation

pub record Prices : Type 0 where
  pub input : ℕ
  pub output : ℕ
  pub cached : Option ℕ
  pub per_unit : Option ℕ

-- the four prices of a version, parsed and then checked in the code's order
unfoldable pub parse_all : Version → Try PriceError Amount
unfolding parse parse_optional
parse_all v = elim (parse v.input_per_1k) [
  | raise e ↦ raise e
  | ok _ ↦ elim (parse v.output_per_1k) [
    | raise e ↦ raise e
    | ok _ ↦ elim (parse_optional v.cached_input_per_1k) [
      | raise e ↦ raise e
      | ok _ ↦ elim (parse_optional v.price_per_unit) [ raise e ↦ raise e | ok amount ↦ ok amount ]
    ]
  ]
]

unfoldable pub check_all : Version → Try PriceError Prices
unfolding check_sign
check_all v = elim (check_sign v.input_per_1k) [
  | raise e ↦ raise e
  | ok input ↦ elim (check_sign v.output_per_1k) [
    | raise e ↦ raise e
    | ok output ↦ elim (check_sign v.cached_input_per_1k) [
      | raise e ↦ raise e
      | ok cached ↦ elim (check_sign v.price_per_unit) [
        | raise e ↦ raise e
        | ok per_unit ↦ ok (record {
          input = or_zero input;
          output = or_zero output;
          cached = cached;
          per_unit = per_unit;
        })
      ]
    ]
  ]
]

unfoldable pub prices_of : Version → Try PriceError Prices
unfolding parse_all check_all
prices_of v = elim (parse_all v) [ raise e ↦ raise e | ok _ ↦ check_all v ]

-- `price_unit or None`
unfoldable pub nonempty : Option Text → Option Text
nonempty none = none
nonempty (some []) = none
nonempty (some (c ∷ s)) = some (c ∷ s)

unfoldable pub row_of : ℕ → Instant → Version → Prices → PriceList
unfolding nonempty
row_of id now v p = record {
  id = id;
  provider = v.provider;
  model = v.model;
  input_per_1k_tokens_usd = p.input;
  output_per_1k_tokens_usd = p.output;
  cached_input_per_1k_tokens_usd = p.cached;
  price_unit = nonempty v.price_unit;
  price_per_unit_usd = p.per_unit;
  effective_from = v.effective_from;
  created_at = now;
  created_by = v.created_by;
  source_note = v.source_note;
}

pub record PriceStore : Type 0 where
  pub price_list : List PriceList
  pub audit_log : List AuditEntry

-- the unique constraint on provider, model and effective_from
abbrev pub same_version : PriceList → PriceList → Bool
same_version row other =
    has_key row.provider row.model other && other.effective_from == row.effective_from

-- the row of the audit log, whose target is a text
abbrev pub version_added : AuditEntry
version_added = record {
  event_type = AuditEventType.price_version_added;
  actor_type = ActorType.admin;
  target_id = none;
}

-- the insert: refused by the unique constraint, or written and audited
unfoldable pub insert : PriceList → PriceStore → Try PriceError PriceList × PriceStore
unfolding text_eq
insert row st = if any (same_version row) st.price_list then (raise duplicate_version, st) else (
  ok row,
  record st {
    price_list = st.price_list ++ row ∷ [];
    audit_log = st.audit_log ++ version_added ∷ [];
  },
)

-- the answer: the row and `is_current`
unfoldable pub reply :
    Instant → Try PriceError PriceList × PriceStore → Try PriceError (PriceList × Bool) × PriceStore
unfolding select_current_version
reply now (raise e, st) = (raise e, st)
reply now (ok row, st) = (ok (row, is_some (select_current_version (row ∷ []) now)), st)

-- `create_version`
unfoldable pub create_version :
    ℕ → Instant → Version → PriceStore → Try PriceError (PriceList × Bool) × PriceStore
unfolding prices_of row_of insert reply
create_version id now v st = elim (prices_of v) [
  | raise e ↦ (raise e, st)
  | ok p ↦ reply now (insert (row_of id now v p) st)
]
