-- ===== src/Rbuffer/Ranges.antt =====
-- The range map holds exactly the positions that were written: merging neither loses nor invents one.
use liteflow.Base.{
  ℕ, suc, ◌≤◌, ◌<◌, ◌≡◌, arith, Bool, false, ◌||◌, ◌&&◌, ltb, leb, List, [], ◌∷◌, refl,
}
use liteflow.Base.Word.{u32_mod, sub32}
use liteflow.Seq.Window.{InWindow, less_equal-InWindow}
use liteflow.Rbuffer.{merge_after}

-- The position `x` is in one of the ranges; all are read by their offset from `base`.
abbrev pub is_in : ℕ → ℕ → ℕ × ℕ → Bool
is_in base x (s, e) = leb (sub32 s base) (sub32 x base) && ltb (sub32 x base) (sub32 e base)

abbrev pub covers : ℕ → ℕ → List (ℕ × ℕ) → Bool
covers base x [] = false
covers base x (r ∷ rs) = is_in base x r || covers base x rs

-- The ranges are in the window, not empty, and each starts behind the end of the one before it.
abbrev pub IsSplit : ℕ → ℕ → List (ℕ × ℕ) → Type 0
IsSplit base lo [] = Unit
IsSplit base lo ((s, e) ∷ rs) =
    InWindow base s
    × InWindow base e
    × (lo ≤ sub32 s base)
    × (sub32 s base < sub32 e base)
    × IsSplit base (suc (sub32 e base)) rs

module _ (base : ℕ) (hb : base < u32_mod) where
  -- Before separate ranges, none of which starts before `s`, stands the range from `s` to `pend`. The
  -- merge of rbuf_write with the ranges after it leaves separate ranges behind a new end that is not
  -- earlier, and for every position `x`, the new ranges cover it exactly if the old ones did.
  pub covers-merge_after :
      (x s pend lo : ℕ) (rs : List (ℕ × ℕ))
      → InWindow base s
      → InWindow base pend
      → sub32 s base < sub32 pend base
      → sub32 s base ≤ lo
      → IsSplit base lo rs
      → let (pend', rs') = merge_after pend rs in
        InWindow base pend'
        × (sub32 pend base ≤ sub32 pend' base)
        × IsSplit base (suc (sub32 pend' base)) rs'
        × (covers base x ((s, pend') ∷ rs') ≡ covers base x ((s, pend) ∷ rs))
  unfolding merge_after
  covers-merge_after x s pend lo [] hs hp h k w = (hp, omega arith, tt, refl)
  covers-merge_after x s pend lo ((n, e) ∷ rs) hs hp h k w = ground (
    arith,
    less_equal-InWindow base n pend hb w.0 hp,
    less_equal-InWindow base pend e hb hp w.1,
    covers-merge_after x s pend (suc (sub32 e base)) rs hs hp h,
    covers-merge_after x s e (suc (sub32 e base)) rs hs w.1,
  )
