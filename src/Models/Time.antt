-- ===== src/Models/Time.antt =====
-- Python's `datetime` in UTC where the code takes it apart: ordered by year, month, then the day and
-- the time of the day.
use ai_api.Base.{ℕ, ◌≤◌, Bool, ◌&&◌, ◌||◌, ltb, leb, ◌==◌}

-- `rest` is the time since the month began, in microseconds.
pub record DateTime : Type 0 where
  pub year : ℕ
  pub month : ℕ
  pub rest : ℕ

-- `a <= b` and `a < b`
unfoldable pub at_or_before : DateTime → DateTime → Bool
at_or_before a b =
    ltb a.year b.year
    || (a.year == b.year && (ltb a.month b.month || (a.month == b.month && leb a.rest b.rest)))

unfoldable pub before : DateTime → DateTime → Bool
before a b =
    ltb a.year b.year
    || (a.year == b.year && (ltb a.month b.month || (a.month == b.month && ltb a.rest b.rest)))

-- `datetime(year, month, 1, tzinfo=UTC)`
abbrev pub month_start : ℕ → ℕ → DateTime
month_start y m = record { year = y; month = m; rest = 0 }

-- a date of the calendar
pub record IsValid (t : DateTime) : Type 0 where
  pub first_year : 1 ≤ t.year
  pub first_month : 1 ≤ t.month
  pub last_month : t.month ≤ 12
