-- ===== src/Seq/Window.antt =====
-- Sequence numbers inside a window shorter than 2^31.
use liteflow.Base.{ℕ, ◌<◌, ◌≡◌, arith, compare, Ordering, leb}
use liteflow.Base.Word.{u32_mod, sub32}
use liteflow.Seq.{less_equal, seq_cmp}

-- `a` lies less than 2^31 after `base`.
abbrev pub InWindow : ℕ → ℕ → Type 0
InWindow base a = (a < u32_mod) × (sub32 a base < 0x8000_0000)

-- Of two sequence numbers of one window, LESS_EQUAL decides the order of their offsets from its
-- base, also where the numbers wrap round inside the window.
pub less_equal-InWindow :
    (base a b : ℕ)
    → base < u32_mod
    → InWindow base a
    → InWindow base b
    → less_equal a b ≡ leb (sub32 a base) (sub32 b base)
unfolding less_equal
less_equal-InWindow base a b hb ha hc = ground arith

-- Of two sequence numbers of one window, seq_cmp is the comparison of their offsets.
pub seq_cmp-InWindow :
    (base a b : ℕ)
    → base < u32_mod
    → InWindow base a
    → InWindow base b
    → seq_cmp a b ≡ compare (sub32 a base) (sub32 b base)
unfolding seq_cmp
seq_cmp-InWindow base a b hb ha hc = ground arith

-- Two sequence numbers exactly 2^31 apart are each greater than the other: seq_cmp is an order only
-- inside a window.
pub seq_cmp_antipodal :
    (a b : ℕ)
    → a < u32_mod
    → b < u32_mod
    → sub32 b a ≡ 0x8000_0000
    → (seq_cmp a b ≡ Ordering.gt) × (seq_cmp b a ≡ Ordering.gt)
unfolding seq_cmp
seq_cmp_antipodal a b ha hb h = ground arith
