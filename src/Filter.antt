-- ===== src/Filter.antt =====
-- The windowed extremum filter of common/windowed_filter.h and common/windowed_filter.c.
-- A function that writes through its pointer returns the new filter with its result. The
-- likely/unlikely hints leave no trace.
pub mod Age
pub mod Peak
pub mod Run
mod Examples
use liteflow.Base.{ℕ, ◌/◌, Bool, ◌&&◌, ◌||◌, ltb, leb, ◌==◌, if◌then◌else◌}
use liteflow.Base.Word.{sub32}

pub record Sample : Type 0 where
  pub t : ℕ
  pub v : ℕ

-- The array s[3] is the three fields s0, s1 and s2.
pub record Filter : Type 0 where
  pub s0 : Sample
  pub s1 : Sample
  pub s2 : Sample
  pub win : ℕ

abbrev pub zero_sample : Sample
zero_sample = record { t = 0; v = 0 }

unfoldable pub filter_init : ℕ → Filter
filter_init win = record { s0 = zero_sample; s1 = zero_sample; s2 = zero_sample; win = win }

unfoldable pub filter_get : Filter → ℕ
filter_get f = f.s0.v

unfoldable pub filter_reset : Filter → ℕ → ℕ → Filter × ℕ
filter_reset f t meas =
    let val : Sample = record { t = t; v = meas } in
    (record f { s0 = val; s1 = val; s2 = val }, meas)

-- s[0] = s[1]; s[1] = s[2]; s[2] = *val
unfoldable pub shift : Filter → Sample → Filter
shift f val = record f { s0 = f.s1; s1 = f.s2; s2 = val }

unfoldable pub filter_update : Filter → Sample → Filter × ℕ
unfolding shift
filter_update f val =
    let dt = sub32 val.t f.s0.t in
    let g =
      if ltb f.win dt
      then (let once = shift f val in
          if ltb f.win (sub32 val.t once.s0.t) then shift once val else once)
      else if f.s1.t == f.s0.t && ltb (f.win / 4) dt
      then record f { s1 = val; s2 = val }
      else if f.s2.t == f.s1.t && ltb (f.win / 2) dt
      then record f { s2 = val }
      else f in
    (g, g.s0.v)

unfoldable pub filter_update_max : Filter → ℕ → ℕ → Filter × ℕ
unfolding filter_reset filter_update
filter_update_max f t meas =
    let val : Sample = record { t = t; v = meas } in
    if leb f.s0.v meas || ltb f.win (sub32 t f.s2.t)
    then filter_reset f t meas
    else filter_update
        (if leb f.s1.v meas
          then record f { s1 = val; s2 = val }
          else if leb f.s2.v meas
          then record f { s2 = val }
          else f)
        val

unfoldable pub filter_update_min : Filter → ℕ → ℕ → Filter × ℕ
unfolding filter_reset filter_update
filter_update_min f t meas =
    let val : Sample = record { t = t; v = meas } in
    if leb meas f.s0.v || ltb f.win (sub32 t f.s2.t)
    then filter_reset f t meas
    else filter_update
        (if leb meas f.s1.v
          then record f { s1 = val; s2 = val }
          else if leb meas f.s2.v
          then record f { s2 = val }
          else f)
        val
