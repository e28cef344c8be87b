-- ===== src/Rbuffer/Address.antt =====
-- Where the bytes of the window stand in the ring of blocks.
use liteflow.Base.{◌/◌, ◌⊎◌, ℕ, ◌+◌, ◌^◌, ◌≤◌, ◌<◌, ◌≡◌, ◌≢◌, arith}
use liteflow.Base.Word.{u32_mod, sub32}
use liteflow.Rbuffer.{Rbuf, rbuf_block_size, block_offset, ring_block, get_block_id, win_size}

-- The positions are 32 bits wide, the first block is in the ring, and the ring is shorter than 2^31.
pub record IsRing (rbuf : Rbuf) : Type 0 where
  pub start : rbuf.start_pos < u32_mod
  pub first : rbuf.start_block < rbuf.blocks_count
  pub short : rbuf.blocks_count < 2 ^ 14

-- Every position of the window is in a block of the ring.
pub get_block_id_bound :
    (rbuf : Rbuf) (pos : ℕ)
    → IsRing rbuf
    → pos < u32_mod
    → sub32 pos rbuf.start_pos < win_size rbuf
    → get_block_id rbuf pos < rbuf.blocks_count
unfolding get_block_id win_size
get_block_id_bound rbuf pos r h k = ground arith

-- How many block boundaries are between the start of the window and a position.
abbrev pub blocks_before : Rbuf → ℕ → ℕ
blocks_before rbuf pos = (block_offset rbuf.start_pos + sub32 pos rbuf.start_pos) / rbuf_block_size

-- Every position of the window, also where the positions wrap round, is in the block of the ring that is
-- as many blocks behind the first one as there are block boundaries before the position; these are fewer
-- than the blocks of the ring, so that the window never comes back into its first block. Two different
-- positions of one block are at different offsets in it.
pub get_block_id-ring :
    (rbuf : Rbuf) (a b : ℕ)
    → IsRing rbuf
    → a < u32_mod
    → b < u32_mod
    → sub32 a rbuf.start_pos < win_size rbuf
    → sub32 b rbuf.start_pos < win_size rbuf
    → a ≢ b
    → (blocks_before rbuf a < rbuf.blocks_count)
      × (get_block_id rbuf a < rbuf.blocks_count)
      × ((get_block_id rbuf a ≡ rbuf.start_block + blocks_before rbuf a)
          ⊎ (get_block_id rbuf a + rbuf.blocks_count ≡ rbuf.start_block + blocks_before rbuf a))
      × ((get_block_id rbuf a ≢ get_block_id rbuf b) ⊎ (block_offset a ≢ block_offset b))
unfolding get_block_id win_size
get_block_id-ring rbuf a b r ha hb wa wb n = ground arith

-- Of a chunk of `size` bytes at `pos` that stays in its block and in the window, exactly the positions
-- of the chunk are in that block at the offsets of the chunk.
pub chunk_hit :
    (rbuf : Rbuf) (pos x size : ℕ)
    → IsRing rbuf
    → pos < u32_mod
    → x < u32_mod
    → sub32 pos rbuf.start_pos + size ≤ win_size rbuf
    → sub32 x rbuf.start_pos < win_size rbuf
    → block_offset pos + size ≤ rbuf_block_size
    → sub32 x pos < size
    → (get_block_id rbuf x ≡ get_block_id rbuf pos)
      × (block_offset x ≡ block_offset pos + sub32 x pos)
unfolding get_block_id win_size
chunk_hit rbuf pos x size r hp hx wp wx room h = ground arith

pub chunk_miss :
    (rbuf : Rbuf) (pos x size : ℕ)
    → IsRing rbuf
    → pos < u32_mod
    → x < u32_mod
    → sub32 pos rbuf.start_pos + size ≤ win_size rbuf
    → sub32 x rbuf.start_pos < win_size rbuf
    → block_offset pos + size ≤ rbuf_block_size
    → get_block_id rbuf x ≡ get_block_id rbuf pos
    → block_offset pos ≤ block_offset x
    → block_offset x < block_offset pos + size
    → sub32 x pos < size
unfolding get_block_id win_size
chunk_miss rbuf pos x size r hp hx wp wx room e l u = ground arith

-- The second reduction of the copying loops has no effect.
pub ring_block_same :
    (rbuf : Rbuf) (pos : ℕ)
    → IsRing rbuf
    → pos < u32_mod
    → sub32 pos rbuf.start_pos < win_size rbuf
    → ring_block rbuf pos ≡ get_block_id rbuf pos
unfolding ring_block
ring_block_same rbuf pos r h k = let bound = get_block_id_bound rbuf pos r h k in ground arith
