-- ===== src/Rbuffer/Cover.antt =====
-- The range map of common/rbuffer.c after a write: it covers what it covered, and the data.
use liteflow.Base.{
  ℕ, suc, ◌≤◌, ◌<◌, ◌≡◌, arith, Bool, true, false, ◌||◌, ◌&&◌, leb, List, [], ◌∷◌, refl, compare,
  Ordering, if◌then◌else◌, Option, none, some, ◌⊎◌, inl, inr, ◌≢◌, sym, ap,
}
use mathlib.Core.Path.{subst}
use liteflow.Base.Word.{u32_mod, sub32}
use liteflow.Seq.{less_equal, seq_cmp}
use liteflow.Seq.Window.{InWindow, less_equal-InWindow, seq_cmp-InWindow}
use liteflow.Treemap.Entries.{insert_entry}
use liteflow.Rbuffer.{
  merge_after, merge_at, put_end, floor_entry, Addition, held, no_node, crash, added, insert_range,
  add_range,
}
use liteflow.Rbuffer.Write.{Floored, floor_entry-Floored}
use liteflow.Rbuffer.Ranges.{IsSplit, covers, is_in, covers-merge_after}

module _ (base : ℕ) (hb : base < u32_mod) (pos end x : ℕ) (hp : InWindow base pos)
    (he : InWindow base end) (hn : sub32 pos base < sub32 end base) where
  -- The new ranges are separate, and cover a position exactly where the old ones or the data do.
  abbrev Adds : ℕ → List (ℕ × ℕ) → List (ℕ × ℕ) → Type 0
  Adds lo xs rs =
      IsSplit base lo rs × (covers base x rs ≡ (covers base x xs || is_in base x (pos, end)))

  -- A range that starts at the position or before it ends before it.
  abbrev Apart : List (ℕ × ℕ) → Type 0
  Apart [] = Unit
  Apart ((k, e) ∷ xs) = (sub32 k base ≤ sub32 pos base → sub32 e base < sub32 pos base) × Apart xs

  insert-Adds :
      (lo : ℕ) (xs : List (ℕ × ℕ))
      → lo ≤ sub32 pos base
      → IsSplit base lo xs
      → Apart xs
      → Adds lo xs (merge_at pos (insert_entry seq_cmp pos end xs))
  unfolding merge_at merge_after
  insert-Adds lo [] h w a = ground arith
  insert-Adds lo ((k, e) ∷ xs) h w a =
      go (seq_cmp pos k) (seq_cmp-InWindow base pos k hb hp w.0)
        (λ g. insert-Adds (suc (sub32 e base)) xs (omega arith) w.4 a.1)
    where
      go :
          (o : Ordering)
          → o ≡ compare (sub32 pos base) (sub32 k base)
          → (sub32 e base < sub32 pos base
              → Adds (suc (sub32 e base)) xs (merge_at pos (insert_entry seq_cmp pos end xs)))
          → Adds lo ((k, e) ∷ xs) (
              merge_at pos (elim o [
                | Ordering.lt ↦ (pos, end) ∷ (k, e) ∷ xs
                | Ordering.eq ↦ (k, e) ∷ xs
                | Ordering.gt ↦ (k, e) ∷ insert_entry seq_cmp pos end xs
              ]))
      go Ordering.lt q next =
          let m =
            covers-merge_after base hb x pos end (suc (sub32 pos base)) ((k, e) ∷ xs) hp he hn
              (omega arith) (w.0, w.1, ground arith, w.3, w.4) in
          ground (arith, m)
      go Ordering.eq q next = ground (arith, a.0)
      go Ordering.gt q next =
          let far : sub32 e base < sub32 pos base = a.0 (ground arith) in ground (arith, next far)

  -- The range (s, e) is there, and is the first that starts at `s`.
  abbrev Holds : ℕ → ℕ → List (ℕ × ℕ) → Type 0
  Holds s e [] = ⊥
  Holds s e ((k, old) ∷ xs) = (k ≡ s × old ≡ e) ⊎ (k ≢ s × Holds s e xs)

  put_end-Adds :
      (s e lo : ℕ) (xs : List (ℕ × ℕ))
      → sub32 s base ≤ sub32 pos base
      → sub32 pos base ≤ sub32 e base
      → sub32 e base < sub32 end base
      → IsSplit base lo xs
      → Holds s e xs
      → Adds lo xs (merge_at s (put_end s end xs))
  unfolding merge_at
  put_end-Adds s e lo [] h k g w q = elim q [ ]
  put_end-Adds s e lo ((j, old) ∷ xs) h k g w (inl q) =
      let m =
        covers-merge_after base hb x s end (suc (sub32 e base)) xs (rw (sym q.0) w.0) he
          (omega arith) (omega arith) (rw (sym q.1) w.4) in
      ground (arith, m)
  put_end-Adds s e lo ((j, old) ∷ xs) h k g w (inr q) =
      let m = put_end-Adds s e (suc (sub32 old base)) xs h k g w.4 q.1 in ground (arith, m)

  abbrev Is : ℕ → ℕ → Option (ℕ × ℕ) → Type 0
  Is s e none = ⊥
  Is s e (some (k, old)) = k ≡ s × old ≡ e

  floor_entry-Holds :
      (s e lo : ℕ) (xs : List (ℕ × ℕ)) (it : Option (ℕ × ℕ))
      → IsSplit base lo xs
      → Is s e (floor_entry it pos xs)
      → Is s e it ⊎ ((lo ≤ sub32 s base) × Holds s e xs)
  floor_entry-Holds s e lo [] it w i = inl i
  floor_entry-Holds s e lo ((k, old) ∷ xs) it w i =
      go (seq_cmp pos k) i
        (λ j. deeper (floor_entry-Holds s e (suc (sub32 old base)) xs (some (k, old)) w.4 j))
    where
      deeper :
          Is s e (some (k, old)) ⊎ ((suc (sub32 old base) ≤ sub32 s base) × Holds s e xs)
          → Is s e it ⊎ ((lo ≤ sub32 s base) × Holds s e ((k, old) ∷ xs))
      deeper (inl q) = inr (rw (sym q.0) w.2, inl q)
      deeper (inr r) = inr (omega arith, inr (apart, r.1))
        where
          apart : k ≢ s
          apart =
              λ q. (let f : sub32 k base ≡ sub32 s base = ap (λ n. sub32 n base) q in omega arith)

      go :
          (o : Ordering)
          → Is s e (elim o [ Ordering.lt ↦ it | _ ↦ floor_entry (some (k, old)) pos xs ])
          → (Is s e (floor_entry (some (k, old)) pos xs)
              → Is s e it ⊎ ((lo ≤ sub32 s base) × Holds s e ((k, old) ∷ xs)))
          → Is s e it ⊎ ((lo ≤ sub32 s base) × Holds s e ((k, old) ∷ xs))
      go Ordering.lt i next = inl i
      go Ordering.eq i next = next i
      go Ordering.gt i next = next i

  -- A range ends before the position.
  abbrev Behind : Option (ℕ × ℕ) → Type 0
  Behind none = Unit
  Behind (some (k, e)) = sub32 e base < sub32 pos base

  beyond-Apart : (lo : ℕ) (xs : List (ℕ × ℕ)) → sub32 pos base < lo → IsSplit base lo xs → Apart xs
  beyond-Apart lo [] h w = tt
  beyond-Apart lo ((k, e) ∷ xs) h w =
      (λ g. omega arith, beyond-Apart (suc (sub32 e base)) xs (omega arith) w.4)

  -- If the range before the position ends before it, so does the range that was there already.
  floor_entry-Behind :
      (k e lo : ℕ) (xs : List (ℕ × ℕ))
      → sub32 e base < lo
      → IsSplit base lo xs
      → Behind (floor_entry (some (k, e)) pos xs)
      → sub32 e base < sub32 pos base
  floor_entry-Behind k e lo [] h w b = b
  floor_entry-Behind k e lo ((n, old) ∷ xs) h w b =
      go (seq_cmp pos n) (seq_cmp-InWindow base pos n hb hp w.0) b
    where
      go :
          (o : Ordering)
          → o ≡ compare (sub32 pos base) (sub32 n base)
          → Behind (elim o [ Ordering.lt ↦ some (k, e) | _ ↦ floor_entry (some (n, old)) pos xs ])
          → sub32 e base < sub32 pos base
      go Ordering.lt q b = b
      go Ordering.eq q b = ground arith
      go Ordering.gt q b = ground arith

  Behind-Apart :
      (lo : ℕ) (xs : List (ℕ × ℕ)) (it : Option (ℕ × ℕ))
      → IsSplit base lo xs
      → Behind (floor_entry it pos xs)
      → Apart xs
  Behind-Apart lo [] it w b = tt
  Behind-Apart lo ((k, e) ∷ xs) it w b =
      go (seq_cmp pos k) (seq_cmp-InWindow base pos k hb hp w.0) b (
        λ c. floor_entry-Behind k e (suc (sub32 e base)) xs (omega arith) w.4 c,
        λ c. Behind-Apart (suc (sub32 e base)) xs (some (k, e)) w.4 c,
      )
    where
      go :
          (o : Ordering)
          → o ≡ compare (sub32 pos base) (sub32 k base)
          → Behind (elim o [ Ordering.lt ↦ it | _ ↦ floor_entry (some (k, e)) pos xs ])
          → (Behind (floor_entry (some (k, e)) pos xs) → sub32 e base < sub32 pos base)
            × (Behind (floor_entry (some (k, e)) pos xs) → Apart xs)
          → Apart ((k, e) ∷ xs)
      go Ordering.lt q b f =
          (λ g. ground arith, beyond-Apart (suc (sub32 e base)) xs (ground arith) w.4)
      go Ordering.eq q b f = (λ g. f.0 b, f.1 b)
      go Ordering.gt q b f = (λ g. f.0 b, f.1 b)

  -- The range map that add_range leaves, if it leaves one.
  abbrev AddsIf : List (ℕ × ℕ) → Addition → Type 0
  AddsIf xs (added rs) = Adds 0 xs rs
  AddsIf xs held = Unit
  AddsIf xs no_node = Unit
  AddsIf xs crash = Unit

  insert_range-AddsIf :
      (alloc : Bool) (xs : List (ℕ × ℕ))
      → IsSplit base 0 xs
      → Apart xs
      → AddsIf xs (insert_range alloc pos end xs)
  unfolding insert_range
  insert_range-AddsIf true xs w a = insert-Adds 0 xs (omega arith) w a
  insert_range-AddsIf false [] w a = tt
  insert_range-AddsIf false (r ∷ xs) w a = tt

  add_range-AddsIf :
      (alloc : Bool) (xs : List (ℕ × ℕ))
      → IsSplit base 0 xs
      → AddsIf xs (add_range alloc pos end xs)
  unfolding add_range
  add_range-AddsIf alloc xs w =
      go (floor_entry none pos xs) (Behind-Apart 0 xs none w)
        (λ s e. floor_entry-Holds s e 0 xs none w)
        (floor_entry-Floored base pos x 0 xs xs none hb hp w (λ q. q) tt)
    where
      go :
          (o : Option (ℕ × ℕ))
          → (Behind o → Apart xs)
          → ((s e : ℕ) → Is s e o → Is s e none ⊎ ((0 ≤ sub32 s base) × Holds s e xs))
          → Floored base pos x xs o
          → AddsIf xs (elim o [
            | none ↦ insert_range alloc pos end xs
            | some (rstart, rend) ↦
                if less_equal end rend
                then held
                else if less_equal rstart pos && less_equal pos rend
                then added (merge_at rstart (put_end rstart end xs))
                else insert_range alloc pos end xs
          ])
      go none b i f = insert_range-AddsIf alloc xs w (b tt)
      go (some (s, e)) b i f =
          choose (less_equal end e) (less_equal s pos) (less_equal pos e)
            (less_equal-InWindow base end e hb he f.1) (less_equal-InWindow base s pos hb f.0 hp)
            (less_equal-InWindow base pos e hb hp f.1)
            (λ k g. elim (i s e (refl, refl)) [
              | inl r ↦ elim r [ ]
              | inr r ↦ put_end-Adds s e 0 xs f.2 k g w r.1
            ])
            (λ k. insert_range-AddsIf alloc xs w (b k))
        where
          choose :
              (past starts ends : Bool)
              → past ≡ leb (sub32 end base) (sub32 e base)
              → starts ≡ leb (sub32 s base) (sub32 pos base)
              → ends ≡ leb (sub32 pos base) (sub32 e base)
              → (sub32 pos base ≤ sub32 e base
                  → sub32 e base < sub32 end base
                  → Adds 0 xs (merge_at s (put_end s end xs)))
              → (sub32 e base < sub32 pos base → AddsIf xs (insert_range alloc pos end xs))
              → AddsIf xs (
                  if past
                  then held
                  else if starts && ends
                  then added (merge_at s (put_end s end xs))
                  else insert_range alloc pos end xs)
          choose true starts ends p q r put new = tt
          choose false true true p q r put new = put (ground arith) (ground arith)
          choose false true false p q r put new = new (ground arith)
          choose false false ends p q r put new =
              new (let z : sub32 s base ≤ sub32 pos base = f.2 in ground arith)

-- The write of the bytes from `pos` up to `end` on separate ranges: if add_range changes the range map,
-- its ranges are separate again, and cover a position `x` exactly if it was covered before or lies
-- from `pos` up to `end`. All positions are read in the window that starts at `base`.
pub add_range-covers :
    (alloc : Bool) (base pos end x : ℕ) (ranges rs : List (ℕ × ℕ))
    → base < u32_mod
    → InWindow base pos
    → InWindow base end
    → sub32 pos base < sub32 end base
    → IsSplit base 0 ranges
    → add_range alloc pos end ranges ≡ added rs
    → IsSplit base 0 rs × (covers base x rs ≡ (covers base x ranges || is_in base x (pos, end)))
add_range-covers alloc base pos end x ranges rs hb hp he hn w q =
    subst (AddsIf base hb pos end x hp he hn ranges) q
      (add_range-AddsIf base hb pos end x hp he hn alloc ranges w)
