-- ===== src/Order/Tests.antt =====
-- Concrete timestamps, at which the theorem on the median applies.
use jx.Base.{ℕ, ◌+◌, ◌/◌, ◌≡◌, List, [], ◌∷◌, arith}
use jx.Hashgraph.{ok}
use jx.Order.{median_timestamp}
use jx.Order.Median.{HasRank, median_timestamp-middle}

abbrev times : List ℕ
times = 9 ∷ 4 ∷ 7 ∷ 5 ∷ []

median_timestamp-middle_example :
    (low : ℕ) × (high : ℕ) × (median_timestamp times ≡ ok ((low + high) / 2))
    × HasRank times 1 low
    × HasRank times 2 high
median_timestamp-middle_example = median_timestamp-middle times (omega arith)
