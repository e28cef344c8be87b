-- ===== src/Treemap/Delete.antt =====
-- Deletion: it never reads through NULL, keeps the shape, and erases exactly the key.
use liteflow.Base.{
  ℕ, suc, ◌≤◌, ◌<◌, ◌≡◌, ◌⊎◌, inl, inr, refl, arith, Bool, true, false, Option, none, some, ◌>>=◌,
  if◌then◌else◌, ◌++◌, ◌∷◌, [], sym, ap, Ordering, Ordering-cases, Bool-cases,
}
use mathlib.Core.List.{append_assoc}
use liteflow.Treemap.Defs.{
  Color, red, black, Tree, leaf, node, to_list, size, is_red, move_red_left, move_red_right,
  rotate_right, is_two_node,
}
use liteflow.Treemap.Ops.{
  Call, delete_left, delete_here_or_right, delete_leaning, delete_smaller, delete_other,
}
use liteflow.Treemap.Order.{Keeps, Keeps-some}
use liteflow.Treemap.Entries.{
  IsRanked, SortedFrom, erase_entry_lt, find_entry_lt, SortedFrom-tail, SortedFrom-front,
}
use liteflow.Treemap.Shape.{Returns, IsLlrb}
use liteflow.Treemap.Shrink.{Shrunk, IsLoose, IsLeaning, LeftReady, left_choice-LeftReady}
use liteflow.Treemap.DeleteMin.{left_choice-Keeps}
use liteflow.Treemap.Rightward.{
  is_some, RightFix, Deleted, CallsRight, delete_left-Deleted, delete_here_or_right-Deleted,
}

module _ {K V : Type 0} where
  IsLoose-no_left :
      (c e : Color) (ll : Tree K V) (lk : K) (lv : V) (lr : Tree K V) (k : K) (v : V)
      → is_red (node e ll lk lv lr) ≡ false
      → ¬ (IsLoose (node c (node e ll lk lv lr) k v leaf))
  IsLoose-no_left red red ll lk lv lr k v b h = ground arith
  IsLoose-no_left red black ll lk lv lr k v b h = ground arith
  IsLoose-no_left black e ll lk lv lr k v b h = ground arith

  loose_single :
      (c : Color) (k : K) (v : V)
      → let t = node c leaf k v leaf in IsLoose t → Shrunk t leaf × RightFix t c leaf leaf
  loose_single red k v h = (ground arith, ground arith)
  loose_single black k v h = absurd (ground arith)

  -- A node with a red right child, or with one that has a red left child.
  loose_RightFix :
      (c : Color) (l : Tree K V) (k : K) (v : V) (r : Tree K V)
      → let t = node c l k v r in (IsLoose t ⊎ IsLeaning t) → is_red l ≡ false → RightFix t c l r
  loose_RightFix red l k v r h b = ground arith
  loose_RightFix black l k v r h b = ground arith

  right_red-IsLoose :
      (c : Color) (l : Tree K V) (k : K) (v : V) (rl : Tree K V) (rk : K) (rv : V) (rr : Tree K V)
      → let t = node c l k v (node red rl rk rv rr) in
        (IsLoose t ⊎ IsLeaning t) → IsLoose (node red rl rk rv rr)
  right_red-IsLoose red l k v rl rk rv rr h = ground arith
  right_red-IsLoose black l k v rl rk rv rr h = ground arith

  right_black-IsLoose :
      (c : Color) (l : Tree K V) (k : K) (v : V) (rl : Tree K V) (rk : K) (rv : V) (rr : Tree K V)
      → let t = node c l k v (node black rl rk rv rr) in
        (IsLoose t ⊎ IsLeaning t) → is_red rl ≡ true → IsLoose (node black rl rk rv rr)
  right_black-IsLoose red l k v rl rk rv rr h n = ground arith
  right_black-IsLoose black l k v rl rk rv rr h n = ground arith

-- If there is a result, the rank of the key at its root is at least `n`.
abbrev RootsFrom : {K V : Type 0} → (K → ℕ) → ℕ → Option (Tree K V) → Type 0
RootsFrom rank n none = Unit
RootsFrom rank n (some leaf) = Unit
RootsFrom rank n (some (node c l k v r)) = n ≤ rank k

module _ {K V : Type 0} {cmp : K → K → Ordering} {D : K → Type 0} {rank : K → ℕ}
    (law : IsRanked cmp D rank) (q : K) (d : D q) where
  -- A red left child is rotated to the right, and the call goes on below it.
  rotated-Deleted :
      (lo : ℕ) (parent first : Option K) (rec : Call K V) (ll : Tree K V) (lk : K) (lv : V)
      (lr : Tree K V) (k : K) (v : V) (r : Tree K V)
      → let t = node black (node red ll lk lv lr) k v r in
        IsLlrb t
        → SortedFrom D rank lo (to_list t)
        → rank k ≤ rank q
        → CallsRight law q d rec (size t)
        → Returns
            (delete_leaning cmp parent first rec (node black ll lk lv (node red lr k v r)) q)
            (Deleted cmp q t)
  unfolding delete_leaning is_two_node
  rotated-Deleted lo parent first rec ll lk lv lr k v r h s above calls =
      let t = node black (node red ll lk lv lr) k v r in
      let same : to_list (node black ll lk lv (node red lr k v r)) ≡ to_list t =
        simp append_assoc in
      let s' : SortedFrom D rank lo
          (to_list ll ++ ((lk, lv) ∷ (to_list lr ++ ((k, v) ∷ to_list r)))) =
        rw same s in
      let below =
        SortedFrom-tail law lo (to_list ll) lk lv (to_list lr ++ ((k, v) ∷ to_list r)) s' in
      let between = SortedFrom-tail law (suc (rank lk)) (to_list lr) k v (to_list r) below.2 in
      delete_here_or_right-Deleted law q d t lo black ll lk lv (node red lr k v r) same s' first rec
        (ground arith) (ground arith) (λ e. absurd (ground (arith, law.cmp_rank q lk d below.0)))
        (omega arith) calls

  -- The release of a node with no right child, and the search that ends there.
  released-Deleted :
      (lo : ℕ) (parent first : Option K) (rec : Call K V) (c : Color) (l : Tree K V) (k : K) (v : V)
      → let t = node c l k v leaf in
        is_red l ≡ false
        → IsLoose t
        → SortedFrom D rank lo (to_list t)
        → rank k ≤ rank q
        → CallsRight law q d rec (size t)
        → Returns (delete_leaning cmp parent first rec t q) (Deleted cmp q t)
  unfolding delete_leaning
  released-Deleted lo parent first rec c (node e ll lk lv lr) k v b h s above calls =
      absurd (IsLoose-no_left c e ll lk lv lr k v b h)
  released-Deleted lo parent first rec c leaf k v b h s above calls =
      elim (Ordering-cases (cmp q k)) [
        | inl e ↦ absurd (ground (arith, law.cmp_rank q k d s.0))
        | inr (inl e) ↦
            rw (e, delete_leaning)
              (record {
                shrunk = (loose_single c k v h).0;
                entries = ground (arith, e);
                reports = ground (arith, e);
              })
        | inr (inr e) ↦
            rw (e, delete_leaning)
              (delete_here_or_right-Deleted law q d (node c leaf k v leaf) lo c leaf k v leaf refl s
                first rec (loose_single c k v h).1 tt (λ f. cc) above calls)
      ]

  -- move_red_right with no rotation, and with one.
  moved-Deleted :
      (lo : ℕ) (first : Option K) (rec : Call K V) (ll : Tree K V) (lk : K) (lv : V) (lr : Tree K V)
      (k : K) (v : V) (rl : Tree K V) (rk : K) (rv : V) (rr : Tree K V)
      → let t = node red (node black ll lk lv lr) k v (node black rl rk rv rr) in
        IsLoose t
        → is_red rl ≡ false
        → SortedFrom D rank lo (to_list t)
        → rank k ≤ rank q
        → CallsRight law q d rec (size t)
        → Returns
            (move_red_right t >>= λ u. delete_here_or_right cmp first rec u q)
            (Deleted cmp q t)
  unfolding move_red_right
  moved-Deleted lo first rec leaf lk lv lr k v rl rk rv rr h n s above calls =
      let t = node red (node black leaf lk lv lr) k v (node black rl rk rv rr) in
      let l' = node red leaf lk lv lr in
      delete_here_or_right-Deleted law q d t lo black l' k v (node red rl rk rv rr) refl s first rec
        (ground arith) (ground arith) (λ e. ground arith) above calls
  moved-Deleted lo first rec (node black a ak av b) lk lv lr k v rl rk rv rr h n s above calls =
      let t = node red (node black (node black a ak av b) lk lv lr) k v (node black rl rk rv rr) in
      let l' = node red (node black a ak av b) lk lv lr in
      delete_here_or_right-Deleted law q d t lo black l' k v (node red rl rk rv rr) refl s first rec
        (ground arith) (ground arith) (λ e. ground arith) above calls
  moved-Deleted lo first rec (node red a ak av b) lk lv lr k v rl rk rv rr h n s above calls =
      let t = node red (node black (node red a ak av b) lk lv lr) k v (node black rl rk rv rr) in
      let r' = node black lr k v (node red rl rk rv rr) in
      let l' = node black a ak av b in
      let same : to_list (node red l' lk lv r') ≡ to_list t = simp append_assoc in
      let s' : SortedFrom D rank lo (to_list l' ++ ((lk, lv) ∷ to_list r')) = rw same s in
      let below = SortedFrom-tail law lo (to_list l') lk lv (to_list r') s' in
      let between = SortedFrom-tail law (suc (rank lk)) (to_list lr) k v _ below.2 in
      delete_here_or_right-Deleted law q d t lo red l' lk lv r' same s' first rec (ground arith)
        (ground arith) (λ e. absurd (ground (arith, law.cmp_rank q lk d below.0))) (omega arith)
        calls

  -- A node with a right child, and no red left child.
  descended-Deleted :
      (lo : ℕ) (parent first : Option K) (rec : Call K V) (c : Color) (l : Tree K V) (k : K) (v : V)
      (e : Color) (rl : Tree K V) (rk : K) (rv : V) (rr : Tree K V)
      → let t = node c l k v (node e rl rk rv rr) in
        is_red l ≡ false
        → (IsLoose t ⊎ IsLeaning t)
        → SortedFrom D rank lo (to_list t)
        → rank k ≤ rank q
        → CallsRight law q d rec (size t)
        → Returns (delete_leaning cmp parent first rec t q) (Deleted cmp q t)
  unfolding delete_leaning is_two_node
  descended-Deleted lo parent first rec c l k v red rl rk rv rr b h s above calls =
      let t = node c l k v (node red rl rk rv rr) in
      let loose = right_red-IsLoose c l k v rl rk rv rr h in
      delete_here_or_right-Deleted law q d t lo c l k v (node red rl rk rv rr) refl s first rec
        (loose_RightFix c l k v (node red rl rk rv rr) h b) (inl loose) (λ _. loose) above calls
  descended-Deleted lo parent first rec c l k v black rl rk rv rr b h s above calls =
      elim (Bool-cases (is_red rl)) [
        | inl n ↦
            let t = node c l k v (node black rl rk rv rr) in
            let loose = right_black-IsLoose c l k v rl rk rv rr h n in
            rw (n, if◌then◌else◌)
              (delete_here_or_right-Deleted law q d t lo c l k v (node black rl rk rv rr) refl s
                first rec (loose_RightFix c l k v (node black rl rk rv rr) h b) (inl loose)
                (λ _. loose) above calls)
        | inr n ↦ rw (n, if◌then◌else◌) (moves c l n b h s calls)
      ]
    where
      moves :
          (c : Color) (l : Tree K V) (n : is_red rl ≡ false)
          → let t = node c l k v (node black rl rk rv rr) in
            is_red l ≡ false
            → (IsLoose t ⊎ IsLeaning t)
            → SortedFrom D rank lo (to_list t)
            → CallsRight law q d rec (size t)
            → Returns
                (move_red_right t >>= λ u. delete_here_or_right cmp first rec u q)
                (Deleted cmp q t)
      moves black l n b h s calls = absurd (ground arith)
      moves red leaf n b h s calls = absurd (ground arith)
      moves red (node red ll lk lv lr) n b h s calls = cc
      moves red (node black ll lk lv lr) n b (inl h) s calls =
          moved-Deleted lo first rec ll lk lv lr k v rl rk rv rr h n s above calls
      moves red (node black ll lk lv lr) n b (inr h) s calls = absurd (ground arith)

  -- The half for a key that is not smaller.
  pub delete_other-Deleted :
      (lo : ℕ) (parent first : Option K) (rec : Call K V) (c : Color) (l : Tree K V) (k : K) (v : V)
      (r : Tree K V)
      → let t = node c l k v r in
        (IsLoose t ⊎ IsLeaning t)
        → SortedFrom D rank lo (to_list t)
        → rank k ≤ rank q
        → CallsRight law q d rec (size t)
        → Returns (delete_other cmp parent first rec t q) (Deleted cmp q t)
  unfolding delete_other rotate_right
  delete_other-Deleted lo parent first rec c leaf k v leaf (inl h) s above calls =
      released-Deleted lo parent first rec c leaf k v refl h s above calls
  delete_other-Deleted lo parent first rec c leaf k v leaf (inr h) s above calls = cc
  delete_other-Deleted lo parent first rec c leaf k v (node e rl rk rv rr) h s above calls =
      descended-Deleted lo parent first rec c leaf k v e rl rk rv rr refl h s above calls
  delete_other-Deleted lo parent first rec c (node black ll lk lv lr) k v leaf (inl h) s above
        calls =
      released-Deleted lo parent first rec c (node black ll lk lv lr) k v refl h s above calls
  delete_other-Deleted lo parent first rec c (node black ll lk lv lr) k v leaf (inr h) s above
        calls =
      cc
  delete_other-Deleted lo parent first rec c (node black ll lk lv lr) k v (node e rl rk rv rr) h s
        above calls =
      descended-Deleted lo parent first rec c (node black ll lk lv lr) k v e rl rk rv rr refl h s
        above calls
  delete_other-Deleted lo parent first rec black (node red ll lk lv lr) k v r (inl h) s above
        calls =
      rotated-Deleted lo parent first rec ll lk lv lr k v r h.0 s above calls
  delete_other-Deleted lo parent first rec red (node red ll lk lv lr) k v r (inl h) s above calls =
      absurd (ground arith)
  delete_other-Deleted lo parent first rec c (node red ll lk lv lr) k v r (inr h) s above calls =
      absurd (ground arith)

  -- move_red_left brings up a key that is not below the one of the node.
  move_red_left_root :
      (lo : ℕ) (c : Color) (l : Tree K V) (k : K) (v : V) (r : Tree K V)
      → SortedFrom D rank lo (to_list l ++ ((k, v) ∷ to_list r))
      → RootsFrom rank (rank k) (move_red_left (node c l k v r))
  unfolding move_red_left
  move_red_left_root lo c leaf k v r s = tt
  move_red_left_root lo c (node e ll lk lv lr) k v leaf s = tt
  move_red_left_root lo c (node e ll lk lv lr) k v (node f leaf rk rv rr) s = omega arith
  move_red_left_root lo c (node e ll lk lv lr) k v (node f (node black a ak av b) rk rv rr) s =
      omega arith
  move_red_left_root lo c (node e ll lk lv lr) k v (node f (node red a ak av b) rk rv rr) s =
      let above = SortedFrom-tail law lo (to_list (node e ll lk lv lr)) k v _ s in
      let front = SortedFrom-front law (suc (rank k)) (to_list (node red a ak av b)) _ above.2 in
      let root = SortedFrom-tail law (suc (rank k)) (to_list a) ak av (to_list b) front in
      omega arith

  left_choice_root :
      (lo : ℕ) (c : Color) (l : Tree K V) (k : K) (v : V) (r : Tree K V) (b : Bool)
      → SortedFrom D rank lo (to_list l ++ ((k, v) ∷ to_list r))
      → RootsFrom rank
          (rank k)
          (if b then move_red_left (node c l k v r) else some (node c l k v r))
  left_choice_root lo c l k v r true s = move_red_left_root lo c l k v r s
  left_choice_root lo c l k v r false s = omega arith

  -- The half for a smaller key.
  pub delete_smaller-Deleted :
      (lo : ℕ) (first : Option K) (rec : Call K V) (c : Color) (l : Tree K V) (k : K) (v : V)
      (r : Tree K V)
      → let t = node c l k v r in
        IsLoose t
        → SortedFrom D rank lo (to_list t)
        → rank q < rank k
        → CallsRight law q d rec (size t)
        → Returns (delete_smaller first rec t) (Deleted cmp q t)
  unfolding delete_smaller is_two_node
  delete_smaller-Deleted lo first rec c leaf k v r h s below calls = record {
    shrunk = record { height = refl; shaped = h.0; blacker = λ e. e };
    entries = sym (erase_entry_lt law lo q [] k v (to_list r) s d below);
    reports = ap is_some (sym (find_entry_lt law lo q [] k v (to_list r) s d below));
  }
  delete_smaller-Deleted lo first rec c (node e ll lk lv lr) k v r h s below calls =
      goes _ (left_choice-LeftReady c e ll lk lv lr k v r h)
        (left_choice-Keeps c e ll lk lv lr k v r)
        (left_choice_root lo c (node e ll lk lv lr) k v r _ s)
    where
      t : Tree K V
      t = node c (node e ll lk lv lr) k v r

      goes :
          (o : Option (Tree K V))
          → Returns o (LeftReady t)
          → Keeps (to_list t) o
          → RootsFrom rank (rank k) o
          → Returns (o >>= λ u. delete_left rec u) (Deleted cmp q t)
      goes none g h root = g
      goes (some leaf) g h root = absurd g
      goes (some (node c' l' k' v' r')) g h root =
          let same = Keeps-some h in
          delete_left-Deleted law q d t lo c' l' k' v' r' same (rw same s) rec g (omega arith) calls
