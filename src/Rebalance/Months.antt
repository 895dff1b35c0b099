-- ===== src/Rebalance/Months.antt =====
-- The window of the last month.
use ai_api.Base.{ℕ, ◌+◌, ◌*◌, ◌≡◌, ◌↔◌, true, ◌&&◌, arith}
use ai_api.Models.Time.{DateTime, IsValid, at_or_before, before}
use ai_api.Rebalance.Reads.{previous_month_range}

-- the months since year 0
abbrev pub month_number : DateTime → ℕ
month_number t = 12 * t.year + t.month

-- A date lies in the window that the rebalance reads, its start included and its end not, exactly
-- when its month is the one before the month of `now`, also across the turn of the year.
pub previous_month_window :
    (now t : DateTime)
    → IsValid now
    → IsValid t
    → let (since, until) = previous_month_range now in
      ((at_or_before since t && before t until) ≡ true) ↔ (month_number t + 1 ≡ month_number now)
unfolding previous_month_range at_or_before before
previous_month_window now t v w = ((λ h. ground arith), (λ h. ground arith))
