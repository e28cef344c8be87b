-- ===== src/Treemap/Examples.antt =====
-- Concrete maps over sequence numbers that wrap round inside a window.
use liteflow.Base.{ℕ, ◌≡◌, arith, true, some}
use liteflow.Base.Word.{sub32}
use liteflow.Seq.{seq_cmp}
use liteflow.Seq.Window.{InWindow, seq_cmp-InWindow}
use liteflow.Treemap.Defs.{leaf, node, red, black, Treemap, to_list}
use liteflow.Treemap.Ops.{treemap_insert, treemap_delete, treemap_get}
use liteflow.Treemap.Entries.{IsRanked, find_entry}
use liteflow.Treemap.Shape.{Returns}
use liteflow.Treemap.Insert.{IsValid, Inserts, treemap_insert-Inserts, treemap_get-find_entry}
use liteflow.Treemap.Erase.{Deletes, treemap_delete-Deletes}

abbrev base : ℕ
base = 0xffff_fff0

abbrev offset : ℕ → ℕ
offset k = sub32 k base

window_law : IsRanked seq_cmp (InWindow base) offset
window_law = record { cmp_rank = λ a b ha hb. seq_cmp-InWindow base a b (omega arith) ha hb }

-- Four entries, two on each side of the wrap.
abbrev four : Treemap ℕ ℕ
four = record {
  node_cnt = 4;
  root =
      node black (node black (node red leaf 0xffff_fff8 10 leaf) 0xffff_ffff 20 leaf) 0 30
        (node black leaf 5 40 leaf);
  first = some 0xffff_fff8;
}

four-IsValid : IsValid (InWindow base) offset four
four-IsValid = ground arith

in_window : InWindow base 0
in_window = ground arith

treemap_insert-Inserts_example :
    Returns
      (treemap_insert seq_cmp true four 3 50)
      (Inserts seq_cmp (InWindow base) offset 3 50 four)
treemap_insert-Inserts_example =
    treemap_insert-Inserts window_law four 3 50 four-IsValid (ground arith)

treemap_get-find_entry_example :
    treemap_get seq_cmp four.root 5 ≡ find_entry seq_cmp 5 (to_list four.root)
treemap_get-find_entry_example =
    treemap_get-find_entry window_law four.root 5 0 four-IsValid.sorted (ground arith)

treemap_delete-Deletes_example :
    Returns (treemap_delete seq_cmp four 0) (Deletes seq_cmp (InWindow base) offset 0 four)
treemap_delete-Deletes_example = treemap_delete-Deletes window_law 0 in_window four four-IsValid
