-- ===== src/Treemap/Rightward.antt =====
-- Deletion from a right subtree: the shapes that are met on the way down, and the two final steps.
use liteflow.Base.{
  ℕ, suc, ◌≤◌, ◌<◌, ◌≡◌, ◌⊎◌, inl, inr, arith, Bool, true, false, Option, none, some, ◌>>=◌,
  if◌then◌else◌, ◌++◌, ◌∷◌, List, sym, ◌∙◌, Ordering, Ordering-cases,
}
use liteflow.Treemap.Defs.{
  Color, red, black, Tree, leaf, node, to_list, size, is_red, fix_delete, delete_min,
}
use liteflow.Treemap.Ops.{
  Call, is_first, delete_left, delete_right, delete_found, delete_here_or_right,
}
use liteflow.Treemap.Order.{Keeps, Keeps-some, fix_delete-Keeps}
use liteflow.Treemap.Entries.{
  IsRanked, SortedFrom, erase_entry, find_entry, erase_entry_lt, erase_entry_ge, find_entry_lt,
  find_entry_ge, SortedFrom-tail, SortedFrom-front,
}
use liteflow.Treemap.Shape.{Returns, black_height, IsLlrb}
use liteflow.Treemap.Shrink.{
  Shrunk, IsLoose, IsLeaning, Fixable, LeftReady, height_over, fix_delete-Shrunk,
}
use liteflow.Treemap.DeleteMin.{MinOut, delete_min-MinOut, size-same, Fixable-left}

abbrev pub is_some {ℓ} : {A : Type ℓ} → Option A → Bool
is_some none = false
is_some (some a) = true

module _ {K V : Type 0} where
  -- What the balancing needs after the right subtree has been changed.
  pub record RightFix (t : Tree K V) (c : Color) (l r : Tree K V) : Type 0 where
    pub left : IsLlrb l
    pub level : black_height l ≡ black_height r
    pub reds : c ≡ red → (is_red l ≡ false) × (is_red r ≡ false)
    pub height : height_over c (black_height l) ≡ black_height t
    pub blacker : is_red t ≡ false → (c ≡ black) × ((is_red l ≡ false) ⊎ (is_red r ≡ false))

  Fixable-right :
      (t : Tree K V) (c : Color) (l r r' : Tree K V)
      → RightFix t c l r
      → Shrunk r r'
      → Fixable t c l r'
  Fixable-right t c l r r' f s = ground arith

-- What a call of treemap_delete_internal returns: the entries without the key, and whether it was
-- there, in a tree of the same black height.
pub record Deleted {K V : Type 0} (cmp : K → K → Ordering) (q : K) (t : Tree K V)
    (res : Tree K V × Bool × Option K) : Type 0 where
  pub shrunk : Shrunk t res.0
  pub entries : to_list res.0 ≡ erase_entry cmp q (to_list t)
  pub reports : res.1 ≡ is_some (find_entry cmp q (to_list t))

module _ {K V : Type 0} {cmp : K → K → Ordering} {D : K → Type 0} {rank : K → ℕ}
    (law : IsRanked cmp D rank) (q : K) (d : D q) where
  -- A subtree that a call is made on: empty, loose, or leaning with a key that is not above `q`.
  abbrev pub IsReady : Tree K V → Type 0
  IsReady leaf = Unit
  IsReady (node c l k v r) =
      IsLoose (node c l k v r) ⊎ (IsLeaning (node c l k v r) × (rank k ≤ rank q))

  -- The recursive calls are right on all smaller subtrees.
  abbrev pub CallsRight : Call K V → ℕ → Type 0
  CallsRight rec n =
      (p : Option K) (u : Tree K V) (lo : ℕ)
      → size u < n
      → IsReady u
      → SortedFrom D rank lo (to_list u)
      → Returns (rec p u) (Deleted cmp q u)

  -- The end of a call: the balancing keeps the entries and restores the shape.
  closes :
      (t : Tree K V) (xs : List (K × V)) (ret : Bool) (first : Option K) (o : Option (Tree K V))
      → Returns o (Shrunk t)
      → Keeps xs o
      → xs ≡ erase_entry cmp q (to_list t)
      → ret ≡ is_some (find_entry cmp q (to_list t))
      → Returns (o >>= λ u. some (u, ret, first)) (Deleted cmp q t)
  closes t xs ret first none s k e b = s
  closes t xs ret first (some u) s k e b = record {
    shrunk = s;
    entries = Keeps-some k ∙ e;
    reports = b;
  }

  module _ (t : Tree K V) (lo : ℕ) (c : Color) (l : Tree K V) (k : K) (v : V) (r : Tree K V)
      (same : to_list (node c l k v r) ≡ to_list t)
      (s : SortedFrom D rank lo (to_list l ++ ((k, v) ∷ to_list r))) where
    smaller_right : size r < size t
    smaller_right = omega (arith, size-same t (node c l k v r) same)

    smaller_left : size l < size t
    smaller_left = omega (arith, size-same t (node c l k v r) same)

    -- The call on the right link, for a key above that of the node.
    pub delete_right-Deleted :
        (rec : Call K V)
        → RightFix t c l r
        → IsReady r
        → rank k < rank q
        → CallsRight rec (size t)
        → Returns (delete_right rec (node c l k v r)) (Deleted cmp q t)
    unfolding delete_right
    delete_right-Deleted rec f ready above calls = done (rec (some k) r) (
        calls (some k) r (suc (rank k)) smaller_right ready
          (SortedFrom-tail law lo (to_list l) k v (to_list r) s).2)
      where
        dk : D k
        dk = (SortedFrom-tail law lo (to_list l) k v (to_list r) s).0

        done :
            (o : Option (Tree K V × Bool × Option K))
            → Returns o (Deleted cmp q r)
            → Returns
                (o >>= λ (r', ret, first).
                  fix_delete (node c l k v r') >>= λ u. some (u, ret, first))
                (Deleted cmp q t)
        done none i = i
        done (some (r', ret, first)) i =
            closes t (to_list (node c l k v r')) ret first (fix_delete (node c l k v r'))
              (fix_delete-Shrunk t c l k v r' (Fixable-right t c l r r' f i.shrunk))
              (fix_delete-Keeps (node c l k v r'))
              (rw
                (
                  ← same,
                  i.entries,
                  erase_entry_ge law lo q (to_list l) k v (to_list r) s d (omega arith),
                )
                (ground (arith, law.cmp_rank q k d dk)))
              (rw (← same, find_entry_ge law lo q (to_list l) k v (to_list r) s d (omega arith))
                (ground (arith, law.cmp_rank q k d dk, i.reports)))

    -- The call on the left link, for a key below that of the node.
    pub delete_left-Deleted :
        (rec : Call K V)
        → LeftReady t (node c l k v r)
        → rank q < rank k
        → CallsRight rec (size t)
        → Returns (delete_left rec (node c l k v r)) (Deleted cmp q t)
    unfolding delete_left
    delete_left-Deleted rec ready below calls = done (rec (some k) l) (
        calls (some k) l lo smaller_left (loose_ready l ready.0)
          (SortedFrom-front law lo (to_list l) ((k, v) ∷ to_list r) s))
      where
        loose_ready : (u : Tree K V) → IsLoose u → IsReady u
        loose_ready leaf h = tt
        loose_ready (node e a j w b) h = inl h

        done :
            (o : Option (Tree K V × Bool × Option K))
            → Returns o (Deleted cmp q l)
            → Returns
                (o >>= λ (l', ret, first).
                  fix_delete (node c l' k v r) >>= λ u. some (u, ret, first))
                (Deleted cmp q t)
        done none i = i
        done (some (l', ret, first)) i =
            closes t (to_list (node c l' k v r)) ret first (fix_delete (node c l' k v r))
              (fix_delete-Shrunk t c l' k v r (Fixable-left t c l l' r ready.1 i.shrunk))
              (fix_delete-Keeps (node c l' k v r))
              (rw (← same, i.entries)
                (sym (erase_entry_lt law lo q (to_list l) k v (to_list r) s d below)))
              (rw (← same, find_entry_lt law lo q (to_list l) k v (to_list r) s d below) i.reports)

    -- The node found takes the place of the least node of its right subtree.
    pub delete_found-Deleted :
        (first : Option K)
        → RightFix t c l r
        → IsLoose r
        → cmp q k ≡ Ordering.eq
        → Returns (delete_found cmp first (node c l k v r)) (Deleted cmp q t)
    unfolding delete_found
    delete_found-Deleted first f loose e =
        done (delete_min (suc (size r)) r) (delete_min-MinOut (suc (size r)) r (omega arith) loose)
      where
        dk : D k
        dk = (SortedFrom-tail law lo (to_list l) k v (to_list r) s).0

        here : rank k ≤ rank q
        here = ground (arith, law.cmp_rank q k d dk)

        done :
            (o : Option (Option (K × V) × Tree K V))
            → Returns o (MinOut r)
            → Returns
                (o >>= λ (n, r'). n >>= λ (mk, mv). fix_delete (node c l mk mv r') >>= λ u.
                  some (u, true, if is_first cmp first k then some mk else first))
                (Deleted cmp q t)
        done none i = i
        done (some (none, r')) i = absurd (ground (arith, i.found))
        done (some (some (mk, mv), r')) i =
            closes t (to_list (node c l mk mv r')) true
              (if is_first cmp first k then some mk else first) (fix_delete (node c l mk mv r'))
              (fix_delete-Shrunk t c l mk mv r' (Fixable-right t c l r r' f i.shrunk))
              (fix_delete-Keeps (node c l mk mv r'))
              (rw (← same, erase_entry_ge law lo q (to_list l) k v (to_list r) s d here)
                (ground (arith, e, i.entries, i.found)))
              (rw (← same, find_entry_ge law lo q (to_list l) k v (to_list r) s d here)
                (ground (arith, e)))

    -- Both together.
    pub delete_here_or_right-Deleted :
        (first : Option K) (rec : Call K V)
        → RightFix t c l r
        → IsReady r
        → (cmp q k ≡ Ordering.eq → IsLoose r)
        → rank k ≤ rank q
        → CallsRight rec (size t)
        → Returns (delete_here_or_right cmp first rec (node c l k v r) q) (Deleted cmp q t)
    unfolding delete_here_or_right
    delete_here_or_right-Deleted first rec f ready found h calls =
        let dk = (SortedFrom-tail law lo (to_list l) k v (to_list r) s).0 in
        elim (Ordering-cases (cmp q k)) [
          | inl e ↦ absurd (ground (arith, law.cmp_rank q k d dk))
          | inr (inl e) ↦ rw (e, delete_here_or_right) (delete_found-Deleted first f (found e) e)
          | inr (inr e) ↦
              rw (e, delete_here_or_right)
                (delete_right-Deleted rec f ready (ground (arith, law.cmp_rank q k d dk)) calls)
        ]
