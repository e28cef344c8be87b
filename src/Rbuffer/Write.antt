-- ===== src/Rbuffer/Write.antt =====
-- What rbuf_write of common/rbuffer.c returns, for the range map and for the bytes.
use liteflow.Base.{
  ◌&&◌, suc, ℕ, suc, ◌+◌, ◌≤◌, ◌<◌, ◌≡◌, ◌⊎◌, List, arith, Option, none, some, Bool, true, false,
  Bool-cases, inl, inr, if◌then◌else◌, refl, compare, Ordering, [], ◌∷◌,
}
use liteflow.Base.Word.{u32_mod, add32, sub32}
use liteflow.Treemap.Shape.{Returns}
use liteflow.Rbuffer.{
  Rbuf, win_size, copy_blocks, floor_entry, Addition, held, no_node, crash, added, copied_with,
  no_block, insert_range, merge_at, put_end, is_out_of_range, add_range, rbuf_write, WriteRet,
  written, duplicated, out_of_range,
}
use liteflow.Seq.{less_equal, seq_cmp}
use liteflow.Seq.Window.{InWindow, less_equal-InWindow, seq_cmp-InWindow}
use liteflow.Rbuffer.Ranges.{IsSplit, covers, is_in}
use liteflow.Rbuffer.Address.{IsRing}
use liteflow.Rbuffer.Copy.{Copied, Partly, Copies, copy_blocks-Copies, win_size_bound}

-- Only the range map and the blocks may have changed.
pub record Framed (rbuf rbuf' : Rbuf) : Type 0 where
  pub start_pos : rbuf'.start_pos ≡ rbuf.start_pos
  pub start_block : rbuf'.start_block ≡ rbuf.start_block
  pub blocks_count : rbuf'.blocks_count ≡ rbuf.blocks_count
  pub write_pos : rbuf'.write_pos ≡ rbuf.write_pos

-- The last range that does not start after the data, where there is one, ends before its end.
abbrev pub EndsBefore : ℕ → Option (ℕ × ℕ) → Type 0
EndsBefore end none = Unit
EndsBefore end (some (s, e)) = less_equal end e ≡ false

-- What rbuf_write returns, by its result.
abbrev pub WriteOutcome : Bool → (ℕ → Bool) → Rbuf → ℕ → (ℕ → ℕ) → ℕ → Rbuf × WriteRet → Type 0
WriteOutcome alloc create rbuf pos bytes n (rbuf', out_of_range) =
    (is_out_of_range rbuf pos n ≡ true) × (rbuf' ≡ rbuf)
WriteOutcome alloc create rbuf pos bytes n (rbuf', duplicated) =
    (is_out_of_range rbuf pos n ≡ false)
    × (rbuf' ≡ rbuf)
    × ((x : ℕ) → x < u32_mod → sub32 x pos < n → covers rbuf.start_pos x rbuf.range_map ≡ true)
WriteOutcome alloc create rbuf pos bytes n (rbuf', written) =
    (is_out_of_range rbuf pos n ≡ false)
    × EndsBefore (add32 pos n) (floor_entry none pos rbuf.range_map)
    × Framed rbuf rbuf'
    × Copied rbuf pos bytes 0 n rbuf.blocks rbuf'.blocks
WriteOutcome alloc create rbuf pos bytes n (rbuf', no_block) =
    (is_out_of_range rbuf pos n ≡ false)
    × (((alloc ≡ false) × (rbuf' ≡ rbuf))
        ⊎ (Framed rbuf rbuf' × Partly create rbuf pos n rbuf.blocks rbuf'.blocks))

-- A range that the search for the last one before `pos` holds: it is one of the ranges.
abbrev pub Floored : ℕ → ℕ → ℕ → List (ℕ × ℕ) → Option (ℕ × ℕ) → Type 0
Floored base pos x ranges none = Unit
Floored base pos x ranges (some (s, e)) =
    InWindow base s
    × InWindow base e
    × (sub32 s base ≤ sub32 pos base)
    × (is_in base x (s, e) ≡ true → covers base x ranges ≡ true)

pub floor_entry-Floored :
    (base pos x lo : ℕ) (ranges xs : List (ℕ × ℕ)) (it : Option (ℕ × ℕ))
    → base < u32_mod
    → InWindow base pos
    → IsSplit base lo xs
    → (covers base x xs ≡ true → covers base x ranges ≡ true)
    → Floored base pos x ranges it
    → Floored base pos x ranges (floor_entry it pos xs)
floor_entry-Floored base pos x lo ranges [] it hb hp w c g = g
floor_entry-Floored base pos x lo ranges ((s, e) ∷ xs) it hb hp w c g =
    go (seq_cmp pos s) (seq_cmp-InWindow base pos s hb hp w.0) (λ h.
      floor_entry-Floored base pos x (suc (sub32 e base)) ranges xs (some (s, e)) hb hp w.4
        (λ q. c (ground arith)) (w.0, w.1, h, λ q. c (ground arith)))
  where
    go :
        (o : Ordering)
        → o ≡ compare (sub32 pos base) (sub32 s base)
        → (sub32 s base ≤ sub32 pos base
            → Floored base pos x ranges (floor_entry (some (s, e)) pos xs))
        → Floored base pos x ranges
            (elim o [ Ordering.lt ↦ it | _ ↦ floor_entry (some (s, e)) pos xs ])
    go Ordering.lt q next = g
    go Ordering.eq q next = next (ground arith)
    go Ordering.gt q next = next (ground arith)

-- What add_range says.
abbrev AddOutcome : Bool → ℕ → ℕ → ℕ → List (ℕ × ℕ) → Addition → Type 0
AddOutcome alloc base pos n ranges held =
    (x : ℕ) → x < u32_mod → sub32 x pos < n → covers base x ranges ≡ true
AddOutcome alloc base pos n ranges no_node = alloc ≡ false
AddOutcome alloc base pos n ranges crash = (alloc ≡ false) × (ranges ≡ [])
AddOutcome alloc base pos n ranges (added rs) =
    EndsBefore (add32 pos n) (floor_entry none pos ranges)

insert_range-AddOutcome :
    (alloc : Bool) (base pos n : ℕ) (ranges : List (ℕ × ℕ))
    → EndsBefore (add32 pos n) (floor_entry none pos ranges)
    → AddOutcome alloc base pos n ranges (insert_range alloc pos (add32 pos n) ranges)
unfolding insert_range
insert_range-AddOutcome true base pos n ranges h = h
insert_range-AddOutcome false base pos n [] h = (refl, refl)
insert_range-AddOutcome false base pos n (r ∷ ranges) h = refl

AddOutcome-if :
    (b : Bool) (alloc : Bool) (base pos n : ℕ) (ranges : List (ℕ × ℕ)) (x y : Addition)
    → AddOutcome alloc base pos n ranges x
    → AddOutcome alloc base pos n ranges y
    → AddOutcome alloc base pos n ranges (if b then x else y)
AddOutcome-if true alloc base pos n ranges x y p q = p
AddOutcome-if false alloc base pos n ranges x y p q = q

-- Data that ends before the end of the last range before it is in that range.
covered :
    (base pos n x s e : ℕ) (ranges : List (ℕ × ℕ))
    → base < u32_mod
    → pos < u32_mod
    → x < u32_mod
    → sub32 pos base + n < 0x8000_0000
    → sub32 x pos < n
    → less_equal (add32 pos n) e ≡ true
    → Floored base pos x ranges (some (s, e))
    → covers base x ranges ≡ true
covered base pos n x s e ranges hb hp hx k h l f =
    let end = less_equal-InWindow base (add32 pos n) e hb (ground arith) f.1 in
    f.3 (ground (arith, end))

add_range-AddOutcome :
    (alloc : Bool) (base pos n : ℕ) (ranges : List (ℕ × ℕ))
    → base < u32_mod
    → pos < u32_mod
    → sub32 pos base + n < 0x8000_0000
    → IsSplit base 0 ranges
    → AddOutcome alloc base pos n ranges (add_range alloc pos (add32 pos n) ranges)
unfolding add_range
add_range-AddOutcome alloc base pos n ranges hb hp k w =
    go (floor_entry none pos ranges) refl
      (λ x. floor_entry-Floored base pos x 0 ranges ranges none hb (hp, omega arith) w (λ q. q) tt)
  where
    go :
        (o : Option (ℕ × ℕ))
        → floor_entry none pos ranges ≡ o
        → ((x : ℕ) → Floored base pos x ranges o)
        → AddOutcome alloc base pos n ranges (elim o [
          | none ↦ insert_range alloc pos (add32 pos n) ranges
          | some (s, e) ↦
              if less_equal (add32 pos n) e
              then held
              else if less_equal s pos && less_equal pos e
              then added (merge_at s (put_end s (add32 pos n) ranges))
              else insert_range alloc pos (add32 pos n) ranges
        ])
    go none q f = insert_range-AddOutcome alloc base pos n ranges (rw q tt)
    go (some (s, e)) q f = elim (Bool-cases (less_equal (add32 pos n) e)) [
      | inl l ↦
          rw (l, if◌then◌else◌) (λ x hx h. covered base pos n x s e ranges hb hp hx k h l (f x))
      | inr l ↦
          let before : EndsBefore (add32 pos n) (floor_entry none pos ranges) = rw q l in
          rw (l, if◌then◌else◌)
            (AddOutcome-if (less_equal s pos && less_equal pos e) alloc base pos n ranges
              (added (merge_at s (put_end s (add32 pos n) ranges)))
              (insert_range alloc pos (add32 pos n) ranges) before
              (insert_range-AddOutcome alloc base pos n ranges before))
    ]

in_range :
    (rbuf : Rbuf) (pos n : ℕ)
    → IsRing rbuf
    → pos < u32_mod
    → is_out_of_range rbuf pos n ≡ false
    → sub32 pos rbuf.start_pos + n ≤ win_size rbuf
unfolding is_out_of_range
in_range rbuf pos n r hp e = let wide = win_size_bound rbuf r in ground arith

write_with :
    (alloc : Bool) (create : ℕ → Bool) (rbuf : Rbuf) (pos : ℕ) (bytes : ℕ → ℕ) (n : ℕ)
    (addition : Addition) (copied : Option ((ℕ → Option (ℕ → ℕ)) × Bool))
    → is_out_of_range rbuf pos n ≡ false
    → (rbuf.range_map ≡ [] → alloc ≡ true)
    → AddOutcome alloc rbuf.start_pos pos n rbuf.range_map addition
    → Returns copied (Copies create rbuf pos bytes 0 n rbuf.blocks)
    → Returns
        (elim addition [
          | held ↦ some (rbuf, duplicated)
          | no_node ↦ some (rbuf, no_block)
          | crash ↦ none
          | added ranges ↦ copied_with rbuf ranges copied
        ])
        (WriteOutcome alloc create rbuf pos bytes n)
write_with alloc create rbuf pos bytes n held copied o m a c = (o, refl, a)
write_with alloc create rbuf pos bytes n no_node copied o m a c = (o, inl (a, refl))
write_with alloc create rbuf pos bytes n crash copied o m a c =
    let works = m a.1 in ground (arith, a.0)
write_with alloc create rbuf pos bytes n (added rs) none o m a c = c
write_with alloc create rbuf pos bytes n (added rs) (some (b, true)) o m a c =
    let framed : Framed rbuf (record rbuf { range_map = rs; blocks = b }) = record {
      start_pos = refl;
      start_block = refl;
      blocks_count = refl;
      write_pos = refl;
    } in
    (o, a, framed, c)
write_with alloc create rbuf pos bytes n (added rs) (some (b, false)) o m a c =
    let framed : Framed rbuf (record rbuf { range_map = rs; blocks = b }) = record {
      start_pos = refl;
      start_block = refl;
      blocks_count = refl;
      write_pos = refl;
    } in
    (o, inr (framed, c))

-- For separate ranges, and where treemap_insert2 does not run out of memory on an empty map, rbuf_write
-- ends, with the number of bytes as fuel, for every position and length. Outside the window it changes
-- nothing and says so. It answers "duplicated" only where the ranges cover every position of the data.
-- It answers 0 only where the last range before the data ends before its end, and then every byte of the
-- data is at its position, and every other byte of the window that was there still is. It answers -1
-- only where an allocation failed: of a range, and then nothing has changed, or of a block, and then the
-- bytes of the window outside of the data are still there.
pub rbuf_write-Writes :
    (fresh : ℕ → ℕ) (alloc : Bool) (create : ℕ → Bool) (rbuf : Rbuf) (pos : ℕ) (bytes : ℕ → ℕ)
    (n : ℕ)
    → IsRing rbuf
    → IsSplit rbuf.start_pos 0 rbuf.range_map
    → (rbuf.range_map ≡ [] → alloc ≡ true)
    → pos < u32_mod
    → Returns
        (rbuf_write fresh alloc create rbuf pos bytes n)
        (WriteOutcome alloc create rbuf pos bytes n)
unfolding rbuf_write
rbuf_write-Writes fresh alloc create rbuf pos bytes n r w m hp =
    elim (Bool-cases (is_out_of_range rbuf pos n)) [
      | inl o ↦ rw (o, if◌then◌else◌) (o, refl)
      | inr o ↦
          let inside = in_range rbuf pos n r hp o in
          let wide = win_size_bound rbuf r in
          rw (o, if◌then◌else◌)
            (write_with alloc create rbuf pos bytes n
              (add_range alloc pos (add32 pos n) rbuf.range_map)
              (copy_blocks n fresh create rbuf pos bytes 0 n rbuf.blocks) o m
              (add_range-AddOutcome alloc rbuf.start_pos pos n rbuf.range_map r.start hp
                (omega arith) w)
              (copy_blocks-Copies n fresh create rbuf pos bytes 0 n rbuf.blocks (omega arith) r hp
                inside))
    ]
