-- ===== src/Filter/Age.antt =====
-- Bounds on what one update of the filter returns.
use liteflow.Base.{ℕ, ◌≤◌, ◌<◌, arith}
use liteflow.Base.Word.{u32_mod, sub32}
use liteflow.Filter.{Filter, filter_update_max, filter_update_min}

-- The samples are ranked: each is at most the one before it.
pub record IsRanked (f : Filter) : Type 0 where
  pub second : f.s1.v ≤ f.s0.v
  pub third : f.s2.v ≤ f.s1.v

-- The ranking that the minimum filter keeps.
pub record IsRankedMin (f : Filter) : Type 0 where
  pub second : f.s0.v ≤ f.s1.v
  pub third : f.s1.v ≤ f.s2.v

-- After an update of the maximum filter at time t, the sample that it reports is no older than the
-- window, whatever the filter held before.
pub filter_update_max_fresh :
    (f : Filter) (t meas : ℕ) → t < u32_mod → sub32 t (filter_update_max f t meas).0.s0.t ≤ f.win
unfolding filter_update_max
filter_update_max_fresh f t meas h = ground arith

-- The same for the minimum filter.
pub filter_update_min_fresh :
    (f : Filter) (t meas : ℕ) → t < u32_mod → sub32 t (filter_update_min f t meas).0.s0.t ≤ f.win
unfolding filter_update_min
filter_update_min_fresh f t meas h = ground arith

-- An update of the maximum filter keeps its three samples in decreasing order.
pub filter_update_max-IsRanked :
    (f : Filter) (t meas : ℕ) → IsRanked f → IsRanked (filter_update_max f t meas).0
unfolding filter_update_max
filter_update_max-IsRanked f t meas r = ground arith

-- An update of the minimum filter keeps its three samples in increasing order.
pub filter_update_min-IsRankedMin :
    (f : Filter) (t meas : ℕ) → IsRankedMin f → IsRankedMin (filter_update_min f t meas).0
unfolding filter_update_min
filter_update_min-IsRankedMin f t meas r = ground arith
