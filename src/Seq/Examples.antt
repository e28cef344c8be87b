-- ===== src/Seq/Examples.antt =====
-- Sequence numbers on both sides of the wrap.
use liteflow.Base.{◌≡◌, arith, compare, Ordering}
use liteflow.Base.Word.{sub32}
use liteflow.Seq.{seq_cmp}
use liteflow.Seq.Window.{seq_cmp-InWindow, seq_cmp_antipodal}

seq_cmp-InWindow_example :
    seq_cmp 3 0xffff_ffff ≡ compare (sub32 3 0xffff_fff0) (sub32 0xffff_ffff 0xffff_fff0)
seq_cmp-InWindow_example =
    seq_cmp-InWindow 0xffff_fff0 3 0xffff_ffff (omega arith) (ground arith) (ground arith)

seq_cmp_antipodal_example :
    (seq_cmp 1 0x8000_0001 ≡ Ordering.gt) × (seq_cmp 0x8000_0001 1 ≡ Ordering.gt)
seq_cmp_antipodal_example =
    seq_cmp_antipodal 1 0x8000_0001 (omega arith) (omega arith) (ground arith)
