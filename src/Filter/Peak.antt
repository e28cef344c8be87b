-- ===== src/Filter/Peak.antt =====
-- The filter against the history of its measurements.
use liteflow.Base.{ℕ, ◌≤◌, ◌≡◌, arith, ◌⊎◌, List, [], ◌∷◌}
use liteflow.Filter.{Sample, Filter, filter_update_max, filter_update_min}

-- `s` is in the history (newest first), and is at least every sample taken after it.
abbrev pub PeakOf : List Sample → Sample → Type 0
PeakOf [] s = ⊥
PeakOf (x ∷ h) s = (x ≡ s) ⊎ ((x.v ≤ s.v) × PeakOf h s)

-- `s` is in the history, and is at most every sample taken after it.
abbrev pub DipOf : List Sample → Sample → Type 0
DipOf [] s = ⊥
DipOf (x ∷ h) s = (x ≡ s) ⊎ ((s.v ≤ x.v) × DipOf h s)

abbrev pub sample : ℕ → ℕ → Sample
sample t v = record { t = t; v = v }

-- All three samples of a maximum filter are peaks of the history.
pub record Tracks (h : List Sample) (f : Filter) : Type 0 where
  pub first : PeakOf h f.s0
  pub second : PeakOf h f.s1
  pub third : PeakOf h f.s2

pub record TracksMin (h : List Sample) (f : Filter) : Type 0 where
  pub first : DipOf h f.s0
  pub second : DipOf h f.s1
  pub third : DipOf h f.s2

pub filter_update_max-Tracks :
    (h : List Sample) (f : Filter) (t meas : ℕ)
    → Tracks h f
    → Tracks (sample t meas ∷ h) (filter_update_max f t meas).0
unfolding filter_update_max
filter_update_max-Tracks h f t meas k = ground arith

pub filter_update_min-TracksMin :
    (h : List Sample) (f : Filter) (t meas : ℕ)
    → TracksMin h f
    → TracksMin (sample t meas ∷ h) (filter_update_min f t meas).0
unfolding filter_update_min
filter_update_min-TracksMin h f t meas k = ground arith
