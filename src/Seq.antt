-- ===== src/Seq.antt =====
-- Sequence numbers of the transport: the macros LESS_EQUAL, BEFORE and AFTER and the comparison
-- seq_cmp of src/util.h (seq_cmp is repeated in common/rbuffer.c).
use liteflow.Base.{
  ℕ, ◌+◌, ◌-◌, ◌%◌, ◌^◌, ◌≤◌, ◌<◌, ◌≡◌, refl, Bool, true, false, not, ◌&&◌, arith, compare,
  Ordering, ltb, ◌==◌, if◌then◌else◌,
}
use liteflow.Base.Word.{u32_mod, sub32}
pub mod Window
mod Examples

-- LESS_EQUAL(a, b): the distance from a up to b, modulo 2^32, is below 2^31.
unfoldable pub less_equal : ℕ → ℕ → Bool
less_equal a b = ltb (sub32 b a) 0x8000_0000

unfoldable pub before : ℕ → ℕ → Bool
unfolding less_equal
before a b = less_equal a b && not (a == b)

unfoldable pub after : ℕ → ℕ → Bool
unfolding less_equal
after a b = not (less_equal a b)

-- -1, 0 and 1 as an ordering.
unfoldable pub seq_cmp : ℕ → ℕ → Ordering
unfolding less_equal
seq_cmp a b = if less_equal a b then (if a == b then Ordering.eq else Ordering.lt) else Ordering.gt
