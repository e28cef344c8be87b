-- ===== src/Rbuffer/Front.antt =====
-- The release of bytes from the front of the window, and the room behind the write position.
use mathlib.Core.Path.{subst}
use liteflow.Base.{
  ℕ, zero, suc, ◌+◌, ◌-◌, ◌≤◌, ◌<◌, ◌≡◌, ◌≢◌, arith, Option, none, some, Bool-cases, leb, ltb, inl,
  inr, if◌then◌else◌, refl, ◌∙◌, ap, sym, ◌>>=◌, List, [], ◌∷◌, true, false,
}
use liteflow.Base.Word.{u32_mod, add32, sub32}
use liteflow.Seq.{seq_cmp}
use liteflow.Treemap.Entries.{find_entry}
use liteflow.Treemap.Shape.{Returns}
use liteflow.Rbuffer.{
  Rbuf, rbuf_block_size, block_offset, set_block, get_block_id, win_size, release_blocks, put_back,
  release_ranges, rbuf_release, rbuf_readable_bytes,
}
use liteflow.Rbuffer.Address.{IsRing}
use liteflow.Rbuffer.Ranges.{IsSplit}

-- The byte at a position.
abbrev pub byte_at : Rbuf → ℕ → Option ℕ
byte_at rbuf x = elim (rbuf.blocks (get_block_id rbuf x)) [
  | none ↦ none
  | some b ↦ some (b (block_offset x))
]

-- After the release of `n` bytes: the window starts `n` bytes later, the ring is still well formed, every
-- position of the window that was not released has the byte that it had, and nothing but the first
-- block, the start and the blocks has changed.
pub record Released (rbuf : Rbuf) (n : ℕ) (rbuf' : Rbuf) : Type 0 where
  pub start : rbuf'.start_pos ≡ add32 rbuf.start_pos n
  pub ring : IsRing rbuf'
  pub count : rbuf'.blocks_count ≡ rbuf.blocks_count
  pub ranges : rbuf'.range_map ≡ rbuf.range_map
  pub write_pos : rbuf'.write_pos ≡ rbuf.write_pos
  pub kept :
      (x : ℕ)
      → x < u32_mod
      → n ≤ sub32 x rbuf.start_pos
      → sub32 x rbuf.start_pos < win_size rbuf
      → byte_at rbuf' x ≡ byte_at rbuf x

-- One round that gives a block back.
abbrev next_block : Rbuf → Rbuf
next_block rbuf = record rbuf {
  blocks = set_block rbuf.start_block none rbuf.blocks;
  start_block = if ltb (rbuf.start_block + 1) rbuf.blocks_count then rbuf.start_block + 1 else 0;
  start_pos = add32 rbuf.start_pos (rbuf_block_size - block_offset rbuf.start_pos);
}

next_block_id :
    (rbuf : Rbuf) (x : ℕ)
    → IsRing rbuf
    → x < u32_mod
    → rbuf_block_size - block_offset rbuf.start_pos ≤ sub32 x rbuf.start_pos
    → sub32 x rbuf.start_pos < win_size rbuf
    → (get_block_id (next_block rbuf) x ≡ get_block_id rbuf x)
      × (get_block_id rbuf x ≢ rbuf.start_block)
      × (sub32 x (next_block rbuf).start_pos < win_size (next_block rbuf))
unfolding get_block_id win_size
next_block_id rbuf x r hx h w = ground arith

next_block_byte :
    (rbuf : Rbuf) (x : ℕ)
    → IsRing rbuf
    → x < u32_mod
    → rbuf_block_size - block_offset rbuf.start_pos ≤ sub32 x rbuf.start_pos
    → sub32 x rbuf.start_pos < win_size rbuf
    → byte_at (next_block rbuf) x ≡ byte_at rbuf x
next_block_byte rbuf x r hx h w =
    let (same, other, inside) = next_block_id rbuf x r hx h w in
    rw (byte_at, same) (ground (arith, other))

window_short : (rbuf : Rbuf) → IsRing rbuf → win_size rbuf < 0x8000_0000
unfolding win_size
window_short rbuf r = ground arith

relay :
    (o : Option Rbuf) (rbuf : Rbuf) (m n : ℕ)
    → IsRing rbuf
    → rbuf_block_size - block_offset rbuf.start_pos + m ≡ n
    → Returns o (Released (next_block rbuf) m)
    → Returns o (Released rbuf n)
relay none rbuf m n r e h = h
relay (some done) rbuf m n r e h = record {
  start = h.start ∙ ground arith;
  ring = h.ring;
  count = h.count;
  ranges = h.ranges;
  write_pos = h.write_pos;
  kept = λ x hx k w.
      let (same, other, inside) = next_block_id rbuf x r hx (omega arith) w in
      let short = window_short rbuf r in
      h.kept x hx (ground arith) inside ∙ next_block_byte rbuf x r hx (omega arith) w;
}

-- The last round, which stays in its block.
part_of_block :
    (rbuf : Rbuf) (n : ℕ)
    → IsRing rbuf
    → n < rbuf_block_size - block_offset rbuf.start_pos
    → Released rbuf n (record rbuf { start_pos = add32 rbuf.start_pos n })
unfolding get_block_id
part_of_block rbuf n r h = record {
  start = refl;
  ring = ground arith;
  count = refl;
  ranges = refl;
  write_pos = refl;
  kept = λ x hx k w.
      let moved : Rbuf = record rbuf { start_pos = add32 rbuf.start_pos n } in
      let same : get_block_id moved x ≡ get_block_id rbuf x = ground arith in
      rw (byte_at, same) refl;
}

release_blocks-Released :
    (f : ℕ) (rbuf : Rbuf) (n : ℕ)
    → n ≤ f
    → IsRing rbuf
    → Returns (release_blocks f rbuf n) (Released rbuf n)
unfolding release_blocks
release_blocks-Released f rbuf zero h r = ground arith
release_blocks-Released zero rbuf (suc n) h r = absurd (omega arith)
release_blocks-Released (suc f) rbuf (suc n) h r =
    let room = rbuf_block_size - block_offset rbuf.start_pos in
    let rest =
      release_blocks-Released f (next_block rbuf) (suc n - room) (omega arith) (ground arith) in
    elim (Bool-cases (leb room (suc n))) [
      | inl e ↦
          rw (e, if◌then◌else◌)
            (relay (release_blocks f (next_block rbuf) (suc n - room)) rbuf (suc n - room) (suc n) r
              (ground arith) rest)
      | inr e ↦ rw (e, if◌then◌else◌) (part_of_block rbuf (suc n) r (ground arith))
    ]

-- No range of the list starts at a position before it.
find_entry-before :
    (base q lo : ℕ) (xs : List (ℕ × ℕ))
    → base < u32_mod
    → q < u32_mod
    → sub32 q base < lo
    → IsSplit base lo xs
    → find_entry seq_cmp q xs ≡ none
unfolding seq_cmp
find_entry-before base q lo [] hb hq h w = refl
find_entry-before base q lo ((s, e) ∷ xs) hb hq h w =
    ground (arith, find_entry-before base q (suc (sub32 e base)) xs hb hq)

-- Where memory does not run out, a size up to the readable bytes can be taken from the ranges.
release_ranges-returns :
    (rbuf : Rbuf) (r_size : ℕ) (xs : List (ℕ × ℕ))
    → rbuf.range_map ≡ xs
    → IsRing rbuf
    → IsSplit rbuf.start_pos 0 xs
    → r_size ≤ rbuf_readable_bytes rbuf
    → Returns
        (release_ranges true rbuf r_size)
        (λ ranges. release_ranges true rbuf r_size ≡ some ranges)
unfolding release_ranges rbuf_readable_bytes put_back seq_cmp
release_ranges-returns rbuf r_size [] e r w h = ground arith
release_ranges-returns rbuf r_size ((s, e) ∷ xs) q r w h = ground (
  arith,
  find_entry-before rbuf.start_pos (add32 rbuf.start_pos r_size) (suc (sub32 e rbuf.start_pos)) xs
      r.start,
)

-- What rbuf_release returns, with the ranges that are left.
abbrev pub Releases : Rbuf → ℕ → Rbuf → Type 0
Releases rbuf r_size rbuf' =
    (release_ranges true rbuf r_size ≡ some rbuf'.range_map)
    × Released (record rbuf { range_map = rbuf'.range_map }) r_size rbuf'

with_ranges :
    (rbuf : Rbuf) (r_size : ℕ) (ranges : List (ℕ × ℕ)) (o : Option Rbuf)
    → release_ranges true rbuf r_size ≡ some ranges
    → Returns o (Released (record rbuf { range_map = ranges }) r_size)
    → Returns o (Releases rbuf r_size)
with_ranges rbuf r_size ranges none e h = h
with_ranges rbuf r_size ranges (some rbuf') e h = (
  e ∙ ap some (sym h.ranges),
  subst (λ xs. Released (record rbuf { range_map = xs }) r_size rbuf') (sym h.ranges) h,
)

then_blocks :
    (rbuf : Rbuf) (r_size : ℕ) (o : Option (List (ℕ × ℕ)))
    → IsRing rbuf
    → Returns o (λ ranges. release_ranges true rbuf r_size ≡ some ranges)
    → Returns
        (o >>= λ ranges. release_blocks r_size (record rbuf { range_map = ranges }) r_size)
        (Releases rbuf r_size)
then_blocks rbuf r_size none r h = h
then_blocks rbuf r_size (some ranges) r h =
    let released : Rbuf = record rbuf { range_map = ranges } in
    let ring : IsRing released = ground arith in
    with_ranges rbuf r_size ranges (release_blocks r_size released r_size) h
      (release_blocks-Released r_size released r_size (omega arith) ring)

-- Where memory does not run out and the ranges are separate, rbuf_release ends for every size up to the
-- readable bytes, with the fuel of the size and with neither assertion failing; the window then starts
-- that many bytes later, the ring stays well formed, the write position does not move, and every
-- position of the window that was not released still has its byte.
pub rbuf_release-Released :
    (rbuf : Rbuf) (r_size : ℕ)
    → IsRing rbuf
    → IsSplit rbuf.start_pos 0 rbuf.range_map
    → r_size ≤ rbuf_readable_bytes rbuf
    → Returns (rbuf_release true rbuf r_size) (Releases rbuf r_size)
unfolding rbuf_release
rbuf_release-Released rbuf r_size r w h =
    rw (is_smaller (rbuf_readable_bytes rbuf) r_size h, if◌then◌else◌)
      (then_blocks rbuf r_size (release_ranges true rbuf r_size) r
        (release_ranges-returns rbuf r_size rbuf.range_map refl r w h))
  where
    is_smaller : (a b : ℕ) → b ≤ a → ltb a b ≡ false
    is_smaller a b k = ground arith
