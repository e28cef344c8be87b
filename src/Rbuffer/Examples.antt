-- ===== src/Rbuffer/Examples.antt =====
-- A ring of four blocks whose window starts shortly before the positions wrap round.
use liteflow.Base.{
  List, ◌||◌, ℕ, ◌+◌, ◌⊎◌, true, ◌≡◌, ◌≢◌, ◌≤◌, ◌<◌, arith, refl, some, [], ◌∷◌, suc,
}
use liteflow.Base.Word.{sub32}
use liteflow.Seq.{seq_cmp}
use liteflow.Seq.Window.{InWindow}
use liteflow.Treemap.Shape.{Returns}
use liteflow.Rbuffer.{
  Rbuf, block_offset, win_size, get_block_id, merge_after, rbuf_readable_bytes, rbuf_release,
  rbuf_write, add_range,
}
use liteflow.Rbuffer.Address.{IsRing, get_block_id-ring, blocks_before}
use liteflow.Rbuffer.Write.{WriteOutcome, rbuf_write-Writes}
use liteflow.Rbuffer.Front.{Releases, rbuf_release-Released}
use liteflow.Rbuffer.Ranges.{IsSplit, covers, covers-merge_after, is_in}
use liteflow.Rbuffer.Cover.{add_range-covers}

abbrev start : ℕ
start = 0xffff_ff00

abbrev ring : Rbuf
ring = record {
  start_pos = start;
  write_pos = start;
  start_block = 2;
  blocks_count = 4;
  range_map = (start, 0xffff_fff0) ∷ (10, 20) ∷ (30, 40) ∷ [];
  blocks = λ i. some (λ j. 0);
}

ring-IsRing : IsRing ring
ring-IsRing = ground arith

inside : sub32 7 start < win_size ring
unfolding win_size
inside = omega arith

readable : 100 ≤ rbuf_readable_bytes ring
unfolding rbuf_readable_bytes
readable = omega arith

inside_next : sub32 8 start < win_size ring
unfolding win_size
inside_next = omega arith

get_block_id-ring_example :
    (blocks_before ring 7 < 4)
    × (get_block_id ring 7 < 4)
    × ((get_block_id ring 7 ≡ 2 + blocks_before ring 7)
        ⊎ (get_block_id ring 7 + 4 ≡ 2 + blocks_before ring 7))
    × ((get_block_id ring 7 ≢ get_block_id ring 8) ⊎ (block_offset 7 ≢ block_offset 8))
get_block_id-ring_example =
    get_block_id-ring ring 7 8 ring-IsRing (omega arith) (omega arith) inside inside_next
      (ground arith)

ring-IsSplit : IsSplit start 0 ring.range_map
ring-IsSplit = ground arith

rbuf_write-Writes_example :
    Returns
      (rbuf_write (λ i. 9) true (λ i. true) ring 0xffff_fff0 (λ i. i) 26)
      (WriteOutcome true (λ i. true) ring 0xffff_fff0 (λ i. i) 26)
rbuf_write-Writes_example =
    rbuf_write-Writes (λ i. 9) true (λ i. true) ring 0xffff_fff0 (λ i. i) 26 ring-IsRing
      ring-IsSplit (λ e. refl) (omega arith)

rbuf_release-Released_example : Returns (rbuf_release true ring 100) (Releases ring 100)
rbuf_release-Released_example = rbuf_release-Released ring 100 ring-IsRing ring-IsSplit readable

covers-merge_after_example :
    let (pend', rs') = merge_after 12 ((10, 20) ∷ (30, 40) ∷ []) in
    InWindow start pend'
    × (sub32 12 start ≤ sub32 pend' start)
    × IsSplit start (suc (sub32 pend' start)) rs'
    × (covers start 15 ((start, pend') ∷ rs')
        ≡ covers start 15 ((start, 12) ∷ (10, 20) ∷ (30, 40) ∷ []))
covers-merge_after_example =
    covers-merge_after start (omega arith) 15 start 12 0 ((10, 20) ∷ (30, 40) ∷ []) (ground arith)
      (ground arith) (omega arith) (omega arith) (ground arith)

abbrev merged : List (ℕ × ℕ)
merged = (start, 0xffff_fff0) ∷ (10, 40) ∷ []

add_range-covers_example :
    IsSplit start 0 merged
    × (covers start 25 merged ≡ (covers start 25 ring.range_map || is_in start 25 (15, 35)))
unfolding add_range seq_cmp
add_range-covers_example =
    add_range-covers true start 15 35 25 ring.range_map merged (omega arith) (ground arith)
      (ground arith) (omega arith) ring-IsSplit refl
