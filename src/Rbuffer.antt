-- ===== src/Rbuffer.antt =====
-- The ring of data blocks of common/rbuffer.c and common/rbuffer.h: a window of the byte stream.
-- range_map is the entries of the ordered map, from the start of a received range to its end, in the
-- order of the starts. A block is its bytes by their offset; data that is passed in or out is its bytes
-- by their index.
pub mod Address
pub mod Copy
pub mod Write
pub mod Cover
pub mod Ranges
pub mod Front
mod Examples
use liteflow.Base.{
  ℕ, zero, suc, ◌+◌, ◌-◌, ◌*◌, ◌/◌, ◌%◌, ◌^◌, ◌==◌, Bool, true, false, not, ◌&&◌, ◌||◌, ltb, leb,
  min_of, if◌then◌else◌, Option, none, some, List, [], ◌∷◌, ◌>>=◌, Ordering,
}
use liteflow.Base.Word.{add32, sub32, mul32}
use liteflow.Seq.{less_equal, seq_cmp}
use liteflow.Treemap.Entries.{insert_entry, erase_entry, find_entry}

abbrev pub rbuf_block_bit : ℕ
rbuf_block_bit = 17

abbrev pub rbuf_block_size : ℕ
rbuf_block_size = 2 ^ 17

pub record Rbuf : Type 0 where
  pub start_pos : ℕ
  pub write_pos : ℕ
  pub start_block : ℕ
  pub blocks_count : ℕ
  pub range_map : List (ℕ × ℕ)
  pub blocks : ℕ → Option (ℕ → ℕ)

-- What rbuf_write returns: 0, 1, -1 and RBUF_OUT_OF_RANGE.
pub data WriteRet : Type 0 where
  written duplicated no_block out_of_range : WriteRet

unfoldable pub rbuf_init : ℕ → Rbuf
rbuf_init blk_cnt = record {
  start_pos = 0;
  write_pos = 0;
  start_block = 0;
  blocks_count = blk_cnt;
  range_map = [];
  blocks = λ i. none;
}

-- pos & RBUF_BLOCK_MASK
abbrev pub block_offset : ℕ → ℕ
block_offset pos = pos % rbuf_block_size

-- pos & ~RBUF_BLOCK_MASK
abbrev pub block_base : ℕ → ℕ
block_base pos = pos - pos % rbuf_block_size

unfoldable pub get_block_id : Rbuf → ℕ → ℕ
get_block_id rbuf pos =
    let block_dist = sub32 (block_base pos) (block_base rbuf.start_pos) in
    let id = add32 rbuf.start_block (block_dist / 2 ^ rbuf_block_bit) in
    if leb rbuf.blocks_count id then sub32 id rbuf.blocks_count else id

-- The number of the block, reduced once more as the copying loops do.
unfoldable pub ring_block : Rbuf → ℕ → ℕ
unfolding get_block_id
ring_block rbuf pos =
    let id = get_block_id rbuf pos in
    if leb rbuf.blocks_count id then sub32 id rbuf.blocks_count else id

-- RBUF_BLOCK_SIZE * rbuf->blocks_count - (rbuf->start_pos & RBUF_BLOCK_MASK)
unfoldable pub win_size : Rbuf → ℕ
win_size rbuf = sub32 (mul32 rbuf_block_size rbuf.blocks_count) (block_offset rbuf.start_pos)

unfoldable pub rbuf_window_info : Rbuf → ℕ × ℕ
unfolding win_size
rbuf_window_info rbuf = (rbuf.start_pos, win_size rbuf)

-- The two range tests that begin rbuf_write.
unfoldable pub is_out_of_range : Rbuf → ℕ → ℕ → Bool
unfolding win_size
is_out_of_range rbuf pos data_len =
    let end = add32 pos data_len in
    ltb (win_size rbuf) data_len
    || (ltb (win_size rbuf) (sub32 pos rbuf.start_pos)
        || ltb (win_size rbuf) (sub32 end rbuf.start_pos))

-- The last range that does not start after `pos`: before treemap_upper_bound, or the last of all.
abbrev pub floor_entry : Option (ℕ × ℕ) → ℕ → List (ℕ × ℕ) → Option (ℕ × ℕ)
floor_entry it pos [] = it
floor_entry it pos ((k, e) ∷ xs) = elim (seq_cmp pos k) [
  | Ordering.lt ↦ it
  | _ ↦ floor_entry (some (k, e)) pos xs
]

-- The end of the range at `k` becomes `e`.
abbrev pub put_end : ℕ → ℕ → List (ℕ × ℕ) → List (ℕ × ℕ)
put_end k e [] = []
put_end k e ((j, old) ∷ xs) =
    let rest = put_end k e xs in if j == k then ((j, e) ∷ xs) else ((j, old) ∷ rest)

-- "merge successor range overlapped": the new end, and the ranges that are left after it.
unfoldable pub merge_after : ℕ → List (ℕ × ℕ) → ℕ × List (ℕ × ℕ)
unfolding less_equal
merge_after pend [] = (pend, [])
merge_after pend ((nstart, nend) ∷ xs) =
    let merged = merge_after (if less_equal pend nend then nend else pend) xs in
    if less_equal nstart pend then merged else (pend, (nstart, nend) ∷ xs)

-- The merge, from the range at `k` on.
unfoldable pub merge_at : ℕ → List (ℕ × ℕ) → List (ℕ × ℕ)
unfolding merge_after
merge_at k [] = []
merge_at k ((j, e) ∷ xs) =
    let rest = merge_at k xs in
    let (pend, left) = merge_after e xs in if j == k then ((j, pend) ∷ left) else ((j, e) ∷ rest)

-- What becomes of the range map: "data duplicated", treemap_insert2 without memory, which returns -1
-- or on an empty map writes through NULL, or the new map.
pub data Addition : Type 0 where
  held no_node crash : Addition
  added : List (ℕ × ℕ) → Addition

-- treemap_insert2 of a new range, and the merge.
unfoldable pub insert_range : Bool → ℕ → ℕ → List (ℕ × ℕ) → Addition
unfolding merge_at
insert_range true pos end xs = added (merge_at pos (insert_entry seq_cmp pos end xs))
insert_range false pos end [] = crash
insert_range false pos end (r ∷ xs) = no_node

-- The part of rbuf_write on the range map. `alloc` says whether malloc succeeds in treemap_insert2.
unfoldable pub add_range : Bool → ℕ → ℕ → List (ℕ × ℕ) → Addition
unfolding merge_at insert_range less_equal
add_range alloc pos end xs = elim (floor_entry none pos xs) [
  | none ↦ insert_range alloc pos end xs
  | some (rstart, rend) ↦
      if less_equal end rend
      then held
      else if less_equal rstart pos && less_equal pos rend
      then added (merge_at rstart (put_end rstart end xs))
      else insert_range alloc pos end xs
]

-- memcpy of `n` bytes of `data` from index `from` into a block at `offset`.
abbrev pub copy_in : (ℕ → ℕ) → ℕ → ℕ → ℕ → (ℕ → ℕ) → ℕ → ℕ
copy_in bytes from n offset block i =
    if leb offset i && ltb i (offset + n) then bytes (from + (i - offset)) else block i

abbrev pub set_block : ℕ → Option (ℕ → ℕ) → (ℕ → Option (ℕ → ℕ)) → ℕ → Option (ℕ → ℕ)
set_block id b blocks i = if i == id then b else blocks i

-- A new block has the bytes that malloc leaves in it, `fresh`.
abbrev pub block_of : (ℕ → ℕ) → Option (ℕ → ℕ) → ℕ → ℕ
block_of fresh none = fresh
block_of fresh (some b) = b

-- The bytes that go into the block of `pos`.
abbrev pub copy_size : ℕ → ℕ → ℕ
copy_size pos data_len =
    let room = rbuf_block_size - block_offset pos in if leb room data_len then room else data_len

-- Whether block_create fails for the block `id`.
abbrev pub lacks_block : (ℕ → Bool) → ℕ → Option (ℕ → ℕ) → Bool
lacks_block create id none = not (create id)
lacks_block create id (some b) = false

-- The copying loop of rbuf_write, and whether it did not end at a failed block_create; `create` says for
-- which blocks it succeeds. The number of bytes is enough fuel.
unfoldable pub copy_blocks :
    ℕ
    → (ℕ → ℕ)
    → (ℕ → Bool)
    → Rbuf
    → ℕ
    → (ℕ → ℕ)
    → ℕ
    → ℕ
    → (ℕ → Option (ℕ → ℕ))
    → Option ((ℕ → Option (ℕ → ℕ)) × Bool)
unfolding ring_block
copy_blocks f fresh create rbuf pos bytes from zero blocks = some (blocks, true)
copy_blocks zero fresh create rbuf pos bytes from (suc n) blocks = none
copy_blocks (suc f) fresh create rbuf pos bytes from (suc n) blocks =
    let size = copy_size pos (suc n) in
    let id = ring_block rbuf pos in
    let block = copy_in bytes from size (block_offset pos) (block_of fresh (blocks id)) in
    let rest =
      copy_blocks f fresh create rbuf (add32 pos size) bytes (from + size) (suc n - size)
        (set_block id (some block) blocks) in
    if lacks_block create id (blocks id) then some (blocks, false) else rest

-- The end of rbuf_write, from the range map and the blocks.
abbrev pub copied_with :
    Rbuf → List (ℕ × ℕ) → Option ((ℕ → Option (ℕ → ℕ)) × Bool) → Option (Rbuf × WriteRet)
copied_with rbuf ranges none = none
copied_with rbuf ranges (some (blocks, true)) =
    some (record rbuf { range_map = ranges; blocks = blocks }, written)
copied_with rbuf ranges (some (blocks, false)) =
    some (record rbuf { range_map = ranges; blocks = blocks }, no_block)

-- `fresh` is what malloc leaves in a new block, `alloc` and `create` say whether the allocations of the
-- range map and of the blocks succeed. Where a block is missing, the range stays in the range map.
unfoldable pub rbuf_write :
    (ℕ → ℕ) → Bool → (ℕ → Bool) → Rbuf → ℕ → (ℕ → ℕ) → ℕ → Option (Rbuf × WriteRet)
unfolding is_out_of_range add_range copy_blocks
rbuf_write fresh alloc create rbuf pos bytes data_len =
    let copied = copy_blocks data_len fresh create rbuf pos bytes 0 data_len rbuf.blocks in
    if is_out_of_range rbuf pos data_len
    then some (rbuf, out_of_range)
    else elim (add_range alloc pos (add32 pos data_len) rbuf.range_map) [
      | held ↦ some (rbuf, duplicated)
      | no_node ↦ some (rbuf, no_block)
      | crash ↦ none
      | added ranges ↦ copied_with rbuf ranges copied
    ]

unfoldable pub rbuf_readable_bytes : Rbuf → ℕ
rbuf_readable_bytes rbuf = elim rbuf.range_map [
  | [] ↦ 0
  | (fstart, fend) ∷ xs ↦ if rbuf.start_pos == fstart then sub32 fend fstart else 0
]

unfoldable pub rbuf_writable_bytes : Rbuf → ℕ
unfolding win_size
rbuf_writable_bytes rbuf = sub32 (win_size rbuf) (sub32 rbuf.write_pos rbuf.start_pos)

unfoldable pub rbuf_write_front :
    (ℕ → ℕ) → Bool → (ℕ → Bool) → Rbuf → (ℕ → ℕ) → ℕ → Option (Rbuf × WriteRet)
unfolding rbuf_write rbuf_writable_bytes
rbuf_write_front fresh alloc create rbuf bytes data_size =
    if ltb (rbuf_writable_bytes rbuf) data_size then some (rbuf, no_block) else (do
      (rbuf', ret) ← rbuf_write fresh alloc create rbuf rbuf.write_pos bytes data_size
      some (elim ret [
        | written ↦ (record rbuf' { write_pos = add32 rbuf'.write_pos data_size }, written)
        | duplicated ↦ (record rbuf' { write_pos = add32 rbuf'.write_pos data_size }, duplicated)
        | no_block ↦ (rbuf', no_block)
        | out_of_range ↦ (rbuf', out_of_range)
      ]))

-- The loop of rbuf_release that gives blocks back. Each round ends a block or the loop, so that the
-- number of bytes is enough fuel.
unfoldable pub release_blocks : ℕ → Rbuf → ℕ → Option Rbuf
release_blocks f rbuf zero = some rbuf
release_blocks zero rbuf (suc n) = none
release_blocks (suc f) rbuf (suc n) =
    let room = rbuf_block_size - block_offset rbuf.start_pos in
    let next = rbuf.start_block + 1 in
    let rest =
      release_blocks f
        (record rbuf {
          blocks = set_block rbuf.start_block none rbuf.blocks;
          start_block = if ltb next rbuf.blocks_count then next else 0;
          start_pos = add32 rbuf.start_pos room;
        })
        (suc n - room) in
    if leb room (suc n)
    then rest
    else some (record rbuf { start_pos = add32 rbuf.start_pos (suc n) })

-- The shortened first range goes back into the map; that treemap_insert returns 0 is asserted.
unfoldable pub put_back : Bool → ℕ → ℕ → List (ℕ × ℕ) → Option (List (ℕ × ℕ))
put_back alloc new_start end left = elim (find_entry seq_cmp new_start left) [
  | some e ↦ none
  | none ↦ if alloc then some (insert_entry seq_cmp new_start end left) else none
]

-- The part of rbuf_release on the range map, for a size that is at most the readable bytes (asserted
-- in the code): the first range is shortened or removed.
unfoldable pub release_ranges : Bool → Rbuf → ℕ → Option (List (ℕ × ℕ))
unfolding rbuf_readable_bytes put_back
release_ranges alloc rbuf r_size =
    let left = erase_entry seq_cmp rbuf.start_pos rbuf.range_map in
    if r_size == rbuf_readable_bytes rbuf then some left else elim rbuf.range_map [
      | [] ↦ none
      | (fstart, fend) ∷ xs ↦ put_back alloc (add32 rbuf.start_pos r_size) fend left
    ]

unfoldable pub rbuf_release : Bool → Rbuf → ℕ → Option Rbuf
unfolding release_blocks release_ranges
rbuf_release alloc rbuf r_size = if ltb (rbuf_readable_bytes rbuf) r_size then none else (do
  ranges ← release_ranges alloc rbuf r_size
  release_blocks r_size (record rbuf { range_map = ranges }) r_size)

-- The loop of rbuf_read: the bytes read, by their index. A block that was never written is a fault.
unfoldable pub read_blocks : ℕ → Rbuf → ℕ → ℕ → ℕ → (ℕ → ℕ) → Option (ℕ → ℕ)
unfolding ring_block
read_blocks f rbuf pos at zero out = some out
read_blocks zero rbuf pos at (suc n) out = none
read_blocks (suc f) rbuf pos at (suc n) out = do
  let size = copy_size pos (suc n)
  block ← rbuf.blocks (ring_block rbuf pos)
  read_blocks f rbuf (add32 pos size) (at + size) (suc n - size)
      (λ i. if leb at i && ltb i (at + size) then block (block_offset pos + (i - at)) else out i)

unfoldable pub rbuf_read : Rbuf → ℕ → ℕ → (ℕ → ℕ) → Option (ℕ → ℕ)
unfolding read_blocks
rbuf_read rbuf pos data_len out = read_blocks data_len rbuf pos 0 data_len out

-- The bytes, and how many they are.
unfoldable pub rbuf_read_front : Rbuf → ℕ → (ℕ → ℕ) → Option ((ℕ → ℕ) × ℕ)
unfolding rbuf_read rbuf_readable_bytes
rbuf_read_front rbuf data_size out = do
  let readable = rbuf_readable_bytes rbuf
  let read_len = if ltb readable data_size then readable else data_size
  out' ← rbuf_read rbuf rbuf.start_pos read_len out
  some (out', read_len)
