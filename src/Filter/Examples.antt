-- ===== src/Filter/Examples.antt =====
-- Runs of a filter with a window of 10 over a few measurements.
use liteflow.Base.{◌≡◌, ◌≤◌, arith, List, [], ◌∷◌}
use liteflow.Base.Word.{sub32}
use liteflow.Filter.{
  Sample, Filter, filter_init, filter_reset, filter_update_max, filter_update_min,
}
use liteflow.Filter.Age.{IsRanked, filter_update_max-IsRanked}
use liteflow.Filter.Peak.{PeakOf, DipOf, sample}
use liteflow.Filter.Run.{run_max, run_min, logged, run_max_reports_peak, run_min_reports_dip}

abbrev samples : List Sample
samples = sample 3 40 ∷ sample 6 20 ∷ sample 12 30 ∷ []

abbrev ranked : Filter
ranked = record { s0 = sample 1 50; s1 = sample 4 40; s2 = sample 9 20; win = 10 }

abbrev ranked_min : Filter
ranked_min = record { s0 = sample 1 20; s1 = sample 4 40; s2 = sample 9 50; win = 10 }

run_max_reports_peak_example :
    let before = run_max (filter_reset (filter_init 10) 1 50).0 samples in
    let last = filter_update_max before 15 25 in
    PeakOf (sample 15 25 ∷ logged (sample 1 50 ∷ []) samples) last.0.s0
    × (last.1 ≡ last.0.s0.v)
    × (sub32 15 last.0.s0.t ≤ before.win)
run_max_reports_peak_example =
    run_max_reports_peak (filter_init 10) (sample 1 50) samples 15 25 (omega arith)

run_min_reports_dip_example :
    let before = run_min (filter_reset (filter_init 10) 1 15).0 samples in
    let last = filter_update_min before 15 25 in
    DipOf (sample 15 25 ∷ logged (sample 1 15 ∷ []) samples) last.0.s0
    × (last.1 ≡ last.0.s0.v)
    × (sub32 15 last.0.s0.t ≤ before.win)
run_min_reports_dip_example =
    run_min_reports_dip (filter_init 10) (sample 1 15) samples 15 25 (omega arith)

filter_update_max-IsRanked_example : IsRanked (filter_update_max ranked 12 30).0
filter_update_max-IsRanked_example = filter_update_max-IsRanked ranked 12 30 (ground arith)
