-- ===== src/Filter/Run.antt =====
-- Sequences of updates: what the filter reports against everything that it was fed.
use liteflow.Base.{ℕ, ◌≤◌, ◌<◌, ◌≡◌, arith, List, [], ◌∷◌}
use liteflow.Base.Word.{u32_mod, sub32}
use liteflow.Filter.{Sample, Filter, filter_reset, filter_update_max, filter_update_min}
use liteflow.Filter.Age.{filter_update_max_fresh, filter_update_min_fresh}
use liteflow.Filter.Peak.{
  PeakOf, DipOf, sample, Tracks, TracksMin, filter_update_max-Tracks, filter_update_min-TracksMin,
}

-- The measurements in the order of arrival are put on the history, newest first.
abbrev pub logged : List Sample → List Sample → List Sample
logged h [] = h
logged h (x ∷ xs) = logged (x ∷ h) xs

pub run_max : Filter → List Sample → Filter
run_max f [] = f
run_max f (x ∷ xs) = run_max (filter_update_max f x.t x.v).0 xs

pub run_min : Filter → List Sample → Filter
run_min f [] = f
run_min f (x ∷ xs) = run_min (filter_update_min f x.t x.v).0 xs

run_max-Tracks :
    (h : List Sample) (f : Filter) (xs : List Sample)
    → Tracks h f
    → Tracks (logged h xs) (run_max f xs)
unfolding run_max
run_max-Tracks h f [] k = k
run_max-Tracks h f (x ∷ xs) k =
    run_max-Tracks (x ∷ h) (filter_update_max f x.t x.v).0 xs
      (filter_update_max-Tracks h f x.t x.v k)

run_min-TracksMin :
    (h : List Sample) (f : Filter) (xs : List Sample)
    → TracksMin h f
    → TracksMin (logged h xs) (run_min f xs)
unfolding run_min
run_min-TracksMin h f [] k = k
run_min-TracksMin h f (x ∷ xs) k =
    run_min-TracksMin (x ∷ h) (filter_update_min f x.t x.v).0 xs
      (filter_update_min-TracksMin h f x.t x.v k)

filter_reset-Tracks : (f : Filter) (x : Sample) → Tracks (x ∷ []) (filter_reset f x.t x.v).0
unfolding filter_reset
filter_reset-Tracks f x = ground arith

filter_reset-TracksMin : (f : Filter) (x : Sample) → TracksMin (x ∷ []) (filter_reset f x.t x.v).0
unfolding filter_reset
filter_reset-TracksMin f x = ground arith

-- The last of any run of updates after a reset reports a measurement of that run: one that is at
-- least every measurement made after it, and that is no older than the window of the filter.
pub run_max_reports_peak :
    (f : Filter) (x : Sample) (xs : List Sample) (t meas : ℕ)
    → t < u32_mod
    → let before = run_max (filter_reset f x.t x.v).0 xs in
      let last = filter_update_max before t meas in
      PeakOf (sample t meas ∷ logged (x ∷ []) xs) last.0.s0
      × (last.1 ≡ last.0.s0.v)
      × (sub32 t last.0.s0.t ≤ before.win)
run_max_reports_peak f x xs t meas h =
    let before = run_max (filter_reset f x.t x.v).0 xs in
    (
      (filter_update_max-Tracks _ before t meas
          (run_max-Tracks (x ∷ []) _ xs (filter_reset-Tracks f x))).first,
      result before,
      filter_update_max_fresh before t meas h,
    )
  where
    result : (g : Filter) → (filter_update_max g t meas).1 ≡ (filter_update_max g t meas).0.s0.v
    result g = unfold filter_update_max in ground arith

-- The last of any run of updates of the minimum filter after a reset reports a measurement of that
-- run: one that is at most every measurement made after it, and no older than the window.
pub run_min_reports_dip :
    (f : Filter) (x : Sample) (xs : List Sample) (t meas : ℕ)
    → t < u32_mod
    → let before = run_min (filter_reset f x.t x.v).0 xs in
      let last = filter_update_min before t meas in
      DipOf (sample t meas ∷ logged (x ∷ []) xs) last.0.s0
      × (last.1 ≡ last.0.s0.v)
      × (sub32 t last.0.s0.t ≤ before.win)
run_min_reports_dip f x xs t meas h =
    let before = run_min (filter_reset f x.t x.v).0 xs in
    (
      (filter_update_min-TracksMin _ before t meas
          (run_min-TracksMin (x ∷ []) _ xs (filter_reset-TracksMin f x))).first,
      result before,
      filter_update_min_fresh before t meas h,
    )
  where
    result : (g : Filter) → (filter_update_min g t meas).1 ≡ (filter_update_min g t meas).0.s0.v
    result g = unfold filter_update_min in ground arith
