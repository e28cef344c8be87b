-- ===== src/Rbuffer/Copy.antt =====
-- What the copying loops do to the bytes of the window.
use liteflow.Base.{
  suc, ℕ, zero, suc, ◌+◌, ◌-◌, ◌≤◌, ◌<◌, ◌≡◌, arith, Option, none, some, Bool, true, false,
  Bool-cases, inl, inr, ltb, if◌then◌else◌, ◌∙◌, ap,
}
use liteflow.Base.Word.{u32_mod, add32, sub32}
use liteflow.Treemap.Shape.{Returns}
use liteflow.Rbuffer.{
  Rbuf, rbuf_block_size, block_offset, get_block_id, win_size, copy_in, set_block, block_of,
  copy_size, copy_blocks, lacks_block,
}
use liteflow.Rbuffer.Address.{IsRing, ring_block_same, chunk_hit, chunk_miss}

-- The byte at a position.
abbrev pub byte_in : Rbuf → (ℕ → Option (ℕ → ℕ)) → ℕ → Option ℕ
byte_in rbuf blocks x = elim (blocks (get_block_id rbuf x)) [
  | none ↦ none
  | some b ↦ some (b (block_offset x))
]

-- The blocks after `n` bytes from index `from` were written at `pos`: these are there, and all other
-- bytes of the window that were there before still are.
pub record Copied (rbuf : Rbuf) (pos : ℕ) (bytes : ℕ → ℕ) (from n : ℕ)
    (blocks blocks' : ℕ → Option (ℕ → ℕ)) : Type 0 where
  pub hit :
      (x : ℕ)
      → x < u32_mod
      → sub32 x rbuf.start_pos < win_size rbuf
      → sub32 x pos < n
      → byte_in rbuf blocks' x ≡ some (bytes (from + sub32 x pos))
  pub kept :
      (x v : ℕ)
      → x < u32_mod
      → sub32 x rbuf.start_pos < win_size rbuf
      → n ≤ sub32 x pos
      → byte_in rbuf blocks x ≡ some v
      → byte_in rbuf blocks' x ≡ some v

-- One round of the loop.
copy_chunk :
    (fresh : ℕ → ℕ) (rbuf : Rbuf) (pos : ℕ) (bytes : ℕ → ℕ) (from size : ℕ)
    (blocks : ℕ → Option (ℕ → ℕ))
    → IsRing rbuf
    → pos < u32_mod
    → sub32 pos rbuf.start_pos + size ≤ win_size rbuf
    → block_offset pos + size ≤ rbuf_block_size
    → let id = get_block_id rbuf pos in
      Copied rbuf pos bytes from size blocks (
        set_block id
          (some (copy_in bytes from size (block_offset pos) (block_of fresh (blocks id))))
          blocks)
copy_chunk fresh rbuf pos bytes from size blocks r hp wp room = record {
  hit = λ x hx wx h. ground (arith, chunk_hit rbuf pos x size r hp hx wp wx room h);
  kept = λ x v hx wx h e. ground (arith, chunk_miss rbuf pos x size r hp hx wp wx room);
}

pub win_size_bound : (rbuf : Rbuf) → IsRing rbuf → win_size rbuf < 0x8000_0000
unfolding win_size
win_size_bound rbuf r = ground arith

-- Two writes, one behind the other.
joined :
    (rbuf : Rbuf) (pos : ℕ) (bytes : ℕ → ℕ) (from size m n : ℕ) (b b' b'' : ℕ → Option (ℕ → ℕ))
    → IsRing rbuf
    → pos < u32_mod
    → size + m ≡ n
    → sub32 pos rbuf.start_pos + n ≤ win_size rbuf
    → Copied rbuf pos bytes from size b b'
    → Copied rbuf (add32 pos size) bytes (from + size) m b' b''
    → Copied rbuf pos bytes from n b b''
joined rbuf pos bytes from size m n b b' b'' r hp e wp c d = record {
  hit = λ x hx wx h.
      let wide = win_size_bound rbuf r in
      elim (Bool-cases (ltb (sub32 x pos) size)) [
        | inl l ↦
            d.kept x (bytes (from + sub32 x pos)) hx wx (ground arith)
              (c.hit x hx wx (ground arith))
        | inr l ↦ d.hit x hx wx (ground arith) ∙ ap (λ i. some (bytes i)) (ground arith)
      ];
  kept = λ x v hx wx h k.
      let wide = win_size_bound rbuf r in
      d.kept x v hx wx (ground arith) (c.kept x v hx wx (ground arith) k);
}

-- The outcome of the copying loop: the bytes are there, or a block could not be made, and then what was
-- there outside of the data still is.
pub record Partly (create : ℕ → Bool) (rbuf : Rbuf) (pos n : ℕ)
    (blocks blocks' : ℕ → Option (ℕ → ℕ)) : Type 0 where
  pub block : ℕ
  pub refused : create block ≡ false
  pub kept :
      (x v : ℕ)
      → x < u32_mod
      → sub32 x rbuf.start_pos < win_size rbuf
      → n ≤ sub32 x pos
      → byte_in rbuf blocks x ≡ some v
      → byte_in rbuf blocks' x ≡ some v

abbrev pub Copies :
    (ℕ → Bool)
    → Rbuf
    → ℕ
    → (ℕ → ℕ)
    → ℕ
    → ℕ
    → (ℕ → Option (ℕ → ℕ))
    → (ℕ → Option (ℕ → ℕ)) × Bool
    → Type 0
Copies create rbuf pos bytes from n blocks (blocks', true) =
    Copied rbuf pos bytes from n blocks blocks'
Copies create rbuf pos bytes from n blocks (blocks', false) =
    Partly create rbuf pos n blocks blocks'

-- A round and the rest of the loop.
then_rest :
    (create : ℕ → Bool) (rbuf : Rbuf) (pos : ℕ) (bytes : ℕ → ℕ) (from size m n : ℕ)
    (b b' : ℕ → Option (ℕ → ℕ)) (o : Option ((ℕ → Option (ℕ → ℕ)) × Bool))
    → IsRing rbuf
    → pos < u32_mod
    → size + m ≡ n
    → sub32 pos rbuf.start_pos + n ≤ win_size rbuf
    → Copied rbuf pos bytes from size b b'
    → Returns o (Copies create rbuf (add32 pos size) bytes (from + size) m b')
    → Returns o (Copies create rbuf pos bytes from n b)
then_rest create rbuf pos bytes from size m n b b' none r hp e wp c d = d
then_rest create rbuf pos bytes from size m n b b' (some (b'', true)) r hp e wp c d =
    joined rbuf pos bytes from size m n b b' b'' r hp e wp c d
then_rest create rbuf pos bytes from size m n b b' (some (b'', false)) r hp e wp c d = record {
  block = d.block;
  refused = d.refused;
  kept = λ x v hx wx h k.
      let wide = win_size_bound rbuf r in
      d.kept x v hx wx (ground arith) (c.kept x v hx wx (ground arith) k);
}

lacking :
    (create : ℕ → Bool) (id : ℕ) (o : Option (ℕ → ℕ))
    → lacks_block create id o ≡ true
    → create id ≡ false
lacking create id none h = ground arith
lacking create id (some b) h = ground arith

pub copy_blocks-Copies :
    (f : ℕ) (fresh : ℕ → ℕ) (create : ℕ → Bool) (rbuf : Rbuf) (pos : ℕ) (bytes : ℕ → ℕ) (from n : ℕ)
    (blocks : ℕ → Option (ℕ → ℕ))
    → n ≤ f
    → IsRing rbuf
    → pos < u32_mod
    → sub32 pos rbuf.start_pos + n ≤ win_size rbuf
    → Returns
        (copy_blocks f fresh create rbuf pos bytes from n blocks)
        (Copies create rbuf pos bytes from n blocks)
unfolding copy_blocks
copy_blocks-Copies f fresh create rbuf pos bytes from zero blocks h r hp wp = record {
  hit = λ x hx wx k. absurd (omega arith);
  kept = λ x v hx wx k e. e;
}
copy_blocks-Copies zero fresh create rbuf pos bytes from (suc n) blocks h r hp wp =
    absurd (omega arith)
copy_blocks-Copies (suc f) fresh create rbuf pos bytes from (suc n) blocks h r hp wp =
    let size = copy_size pos (suc n) in
    let id = get_block_id rbuf pos in
    let block = copy_in bytes from size (block_offset pos) (block_of fresh (blocks id)) in
    let wide = win_size_bound rbuf r in
    let first =
      copy_chunk fresh rbuf pos bytes from size blocks r hp (ground arith) (ground arith) in
    let rest =
      copy_blocks-Copies f fresh create rbuf (add32 pos size) bytes (from + size) (suc n - size)
        (set_block id (some block) blocks) (ground arith) r (ground arith) (ground arith) in
    rw (ring_block_same rbuf pos r hp (ground arith))
      (elim (Bool-cases (lacks_block create id (blocks id))) [
        | inl e ↦
            rw (e, if◌then◌else◌)
              (record {
                block = id;
                refused = lacking create id (blocks id) e;
                kept = λ x v hx wx k p. p;
              })
        | inr e ↦
            rw (e, if◌then◌else◌)
              (then_rest create rbuf pos bytes from size (suc n - size) (suc n) blocks
                (set_block id (some block) blocks) _ r hp (ground arith) wp first rest)
      ])
