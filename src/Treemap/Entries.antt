-- ===== src/Treemap/Entries.antt =====
-- The entries of the map as a sorted list: the specification of insertion, deletion and search.
use liteflow.Base.{
  ℕ, suc, ◌≤◌, ◌<◌, ◌≡◌, ◌≢◌, refl, arith, Option, none, some, ◌++◌, ◌∷◌, List, [], compare,
  Ordering,
}

-- cmp agrees with the order of ranks, on the keys of the domain `D`. seq_cmp does so on the sequence
-- numbers of one window, by their offsets.
pub record IsRanked {K : Type 0} (cmp : K → K → Ordering) (D : K → Type 0) (rank : K → ℕ)
    : Type 0 where
  pub cmp_rank : (a b : K) → D a → D b → cmp a b ≡ compare (rank a) (rank b)

module _ {K V : Type 0} (cmp : K → K → Ordering) where
  -- A new entry goes before the first greater one; an equal key stops it.
  abbrev pub insert_entry : K → V → List (K × V) → List (K × V)
  insert_entry q w [] = (q, w) ∷ []
  insert_entry q w ((k, v) ∷ xs) = elim (cmp q k) [
    | Ordering.lt ↦ (q, w) ∷ (k, v) ∷ xs
    | Ordering.eq ↦ (k, v) ∷ xs
    | Ordering.gt ↦ (k, v) ∷ insert_entry q w xs
  ]

  abbrev pub erase_entry : K → List (K × V) → List (K × V)
  erase_entry q [] = []
  erase_entry q ((k, v) ∷ xs) = elim (cmp q k) [ Ordering.eq ↦ xs | _ ↦ (k, v) ∷ erase_entry q xs ]

  abbrev pub find_entry : K → List (K × V) → Option V
  find_entry q [] = none
  find_entry q ((k, v) ∷ xs) = elim (cmp q k) [ Ordering.eq ↦ some v | _ ↦ find_entry q xs ]

module _ {K V : Type 0} (D : K → Type 0) (rank : K → ℕ) where
  -- The keys are of the domain, and their ranks grow strictly, from `lo` on.
  abbrev pub SortedFrom : ℕ → List (K × V) → Type 0
  SortedFrom lo [] = Unit
  SortedFrom lo ((k, v) ∷ xs) = D k × (lo ≤ rank k) × SortedFrom (suc (rank k)) xs

module _ {K V : Type 0} {cmp : K → K → Ordering} {D : K → Type 0} {rank : K → ℕ}
    (law : IsRanked cmp D rank) where
  pub insert_entry_lt :
      (q : K) (w : V) (xs : List (K × V)) (k : K) (v : V) (ys : List (K × V))
      → cmp q k ≡ Ordering.lt
      → insert_entry cmp q w (xs ++ ((k, v) ∷ ys)) ≡ insert_entry cmp q w xs ++ ((k, v) ∷ ys)
  insert_entry_lt q w [] k v ys h = ground arith
  insert_entry_lt q w ((j, u) ∷ xs) k v ys h = ground (arith, insert_entry_lt q w xs k v ys h)

  pub SortedFrom-tail :
      (lo : ℕ) (xs : List (K × V)) (k : K) (v : V) (ys : List (K × V))
      → SortedFrom D rank lo (xs ++ ((k, v) ∷ ys))
      → D k × (lo ≤ rank k) × SortedFrom D rank (suc (rank k)) ys
  SortedFrom-tail lo [] k v ys s = s
  SortedFrom-tail lo ((j, u) ∷ xs) k v ys s =
      let (d, h, rest) = SortedFrom-tail (suc (rank j)) xs k v ys s.2 in (d, omega arith, rest)

  pub SortedFrom-weaken :
      (lo hi : ℕ) (xs : List (K × V)) → lo ≤ hi → SortedFrom D rank hi xs → SortedFrom D rank lo xs
  SortedFrom-weaken lo hi [] h s = tt
  SortedFrom-weaken lo hi ((j, u) ∷ xs) h s = (s.0, omega arith, s.2)

  pub SortedFrom-front :
      (lo : ℕ) (xs ys : List (K × V)) → SortedFrom D rank lo (xs ++ ys) → SortedFrom D rank lo xs
  SortedFrom-front lo [] ys s = tt
  SortedFrom-front lo ((j, u) ∷ xs) ys s = (s.0, s.1, SortedFrom-front (suc (rank j)) xs ys s.2)

  -- A key that is not less than `k` goes behind it.
  pub insert_entry_ge :
      (lo : ℕ) (q : K) (w : V) (xs : List (K × V)) (k : K) (v : V) (ys : List (K × V))
      → SortedFrom D rank lo (xs ++ ((k, v) ∷ ys))
      → D q
      → rank k ≤ rank q
      → insert_entry cmp q w (xs ++ ((k, v) ∷ ys)) ≡ xs ++ insert_entry cmp q w ((k, v) ∷ ys)
  insert_entry_ge lo q w [] k v ys s d h = refl
  insert_entry_ge lo q w ((j, u) ∷ xs) k v ys s d h =
      let below = SortedFrom-tail (suc (rank j)) xs k v ys s.2 in
      ground
        (arith, law.cmp_rank q j d s.0, below, insert_entry_ge (suc (rank j)) q w xs k v ys s.2 d h)

  -- A key below all of `ys` is erased from what stands before them.
  pub erase_entry_absent :
      (lo : ℕ) (q : K) (ys : List (K × V))
      → SortedFrom D rank lo ys
      → D q
      → rank q < lo
      → erase_entry cmp q ys ≡ ys
  erase_entry_absent lo q [] s d h = refl
  erase_entry_absent lo q ((k, v) ∷ ys) s d h =
      ground (arith, law.cmp_rank q k d s.0, erase_entry_absent (suc (rank k)) q ys s.2 d)

  pub erase_entry_lt :
      (lo : ℕ) (q : K) (xs : List (K × V)) (k : K) (v : V) (ys : List (K × V))
      → SortedFrom D rank lo (xs ++ ((k, v) ∷ ys))
      → D q
      → rank q < rank k
      → erase_entry cmp q (xs ++ ((k, v) ∷ ys)) ≡ erase_entry cmp q xs ++ ((k, v) ∷ ys)
  erase_entry_lt lo q [] k v ys s d h =
      ground (arith, law.cmp_rank q k d s.0, erase_entry_absent (suc (rank k)) q ys s.2 d)
  erase_entry_lt lo q ((j, u) ∷ xs) k v ys s d h =
      ground (arith, law.cmp_rank q j d s.0, erase_entry_lt (suc (rank j)) q xs k v ys s.2 d h)

  pub erase_entry_ge :
      (lo : ℕ) (q : K) (xs : List (K × V)) (k : K) (v : V) (ys : List (K × V))
      → SortedFrom D rank lo (xs ++ ((k, v) ∷ ys))
      → D q
      → rank k ≤ rank q
      → erase_entry cmp q (xs ++ ((k, v) ∷ ys)) ≡ xs ++ erase_entry cmp q ((k, v) ∷ ys)
  erase_entry_ge lo q [] k v ys s d h = refl
  erase_entry_ge lo q ((j, u) ∷ xs) k v ys s d h =
      let below = SortedFrom-tail (suc (rank j)) xs k v ys s.2 in
      ground
        (arith, law.cmp_rank q j d s.0, below, erase_entry_ge (suc (rank j)) q xs k v ys s.2 d h)

  -- The same for the search.
  pub find_entry_absent :
      (lo : ℕ) (q : K) (ys : List (K × V))
      → SortedFrom D rank lo ys
      → D q
      → rank q < lo
      → find_entry cmp q ys ≡ none
  find_entry_absent lo q [] s d h = refl
  find_entry_absent lo q ((k, v) ∷ ys) s d h =
      ground (arith, law.cmp_rank q k d s.0, find_entry_absent (suc (rank k)) q ys s.2 d)

  pub find_entry_lt :
      (lo : ℕ) (q : K) (xs : List (K × V)) (k : K) (v : V) (ys : List (K × V))
      → SortedFrom D rank lo (xs ++ ((k, v) ∷ ys))
      → D q
      → rank q < rank k
      → find_entry cmp q (xs ++ ((k, v) ∷ ys)) ≡ find_entry cmp q xs
  find_entry_lt lo q [] k v ys s d h =
      ground (arith, law.cmp_rank q k d s.0, find_entry_absent (suc (rank k)) q ys s.2 d)
  find_entry_lt lo q ((j, u) ∷ xs) k v ys s d h =
      ground (arith, law.cmp_rank q j d s.0, find_entry_lt (suc (rank j)) q xs k v ys s.2 d h)

  pub find_entry_ge :
      (lo : ℕ) (q : K) (xs : List (K × V)) (k : K) (v : V) (ys : List (K × V))
      → SortedFrom D rank lo (xs ++ ((k, v) ∷ ys))
      → D q
      → rank k ≤ rank q
      → find_entry cmp q (xs ++ ((k, v) ∷ ys)) ≡ find_entry cmp q ((k, v) ∷ ys)
  find_entry_ge lo q [] k v ys s d h = refl
  find_entry_ge lo q ((j, u) ∷ xs) k v ys s d h =
      let below = SortedFrom-tail (suc (rank j)) xs k v ys s.2 in
      ground
        (arith, law.cmp_rank q j d s.0, below, find_entry_ge (suc (rank j)) q xs k v ys s.2 d h)

  -- Insertion and erasure keep the entries sorted.
  pub insert_entry-SortedFrom :
      (lo : ℕ) (q : K) (w : V) (xs : List (K × V))
      → SortedFrom D rank lo xs
      → D q
      → lo ≤ rank q
      → SortedFrom D rank lo (insert_entry cmp q w xs)
  insert_entry-SortedFrom lo q w [] s d h = (d, h, tt)
  insert_entry-SortedFrom lo q w ((k, v) ∷ xs) s d h =
      ground (arith, law.cmp_rank q k d s.0, insert_entry-SortedFrom (suc (rank k)) q w xs s.2 d)

  pub erase_entry-SortedFrom :
      (lo : ℕ) (q : K) (xs : List (K × V))
      → SortedFrom D rank lo xs
      → SortedFrom D rank lo (erase_entry cmp q xs)
  erase_entry-SortedFrom lo q [] s = tt
  erase_entry-SortedFrom lo q ((k, v) ∷ xs) s = ground (
    arith,
    SortedFrom-weaken lo (suc (rank k)) xs,
    erase_entry-SortedFrom (suc (rank k)) q xs s.2,
  )

  pub insert_entry-ne-nil : (q : K) (w : V) (xs : List (K × V)) → insert_entry cmp q w xs ≢ []
  insert_entry-ne-nil q w [] = ground arith
  insert_entry-ne-nil q w ((k, v) ∷ xs) = ground arith
