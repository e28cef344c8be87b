-- ===== src/Treemap/Recolor.antt =====
-- The colour of the root does not matter to a deletion: the balancing steps only carry it along, and
-- treemap_delete paints the root black at the end.
use liteflow.Base.{
  suc, ◌≡◌, refl, arith, Bool, true, Option, none, some, ◌>>=◌, if◌then◌else◌, Ordering, Bool-cases,
  inl, inr, sym,
}
use liteflow.Treemap.Defs.{
  red, black, Tree, leaf, node, is_red, blacken, fix_delete, move_red_left, move_red_right,
  rotate_right, is_two_node, delete_min, size, toggled,
}
use liteflow.Treemap.Ops.{
  Call, is_first, delete_left, delete_right, delete_found, delete_here_or_right, delete_leaning,
  delete_smaller, delete_other,
}

module _ {K V : Type 0} where
  abbrev pub painted_tree : Option (Tree K V) → Option (Tree K V)
  painted_tree none = none
  painted_tree (some t) = some (blacken t)

  abbrev pub painted : Option (Tree K V × Bool × Option K) → Option (Tree K V × Bool × Option K)
  painted none = none
  painted (some (t, ret, first)) = some (blacken t, ret, first)

  fix_delete_paint :
      (l : Tree K V) (k : K) (v : V) (r : Tree K V)
      → painted_tree (fix_delete (node black l k v r))
        ≡ painted_tree (fix_delete (node red l k v r))
  unfolding fix_delete
  fix_delete_paint leaf k v leaf = refl
  fix_delete_paint leaf k v (node red rl rk rv rr) = ground arith
  fix_delete_paint leaf k v (node black rl rk rv rr) = refl
  fix_delete_paint (node c ll lk lv lr) k v leaf = ground arith
  fix_delete_paint (node c ll lk lv lr) k v (node d rl rk rv rr) = ground arith

  -- After the last balancing step of a call.
  end_paint :
      (ret : Bool) (first : Option K) (o p : Option (Tree K V))
      → painted_tree o ≡ painted_tree p
      → painted (o >>= λ u. some (u, ret, first)) ≡ painted (p >>= λ u. some (u, ret, first))
  end_paint ret first none none e = refl
  end_paint ret first none (some u) e = ground arith
  end_paint ret first (some t) none e = ground arith
  end_paint ret first (some t) (some u) e = ground arith

  delete_left_paint :
      (rec : Call K V) (l : Tree K V) (k : K) (v : V) (r : Tree K V)
      → painted (delete_left rec (node black l k v r))
        ≡ painted (delete_left rec (node red l k v r))
  unfolding delete_left
  delete_left_paint rec l k v r = go (rec (some k) l)
    where
      go :
          (o : Option (Tree K V × Bool × Option K))
          → painted (
              o >>= λ (u, ret, first).
              fix_delete (node black u k v r) >>= λ t. some (t, ret, first))
            ≡ painted (
                o >>= λ (u, ret, first).
                fix_delete (node red u k v r) >>= λ t. some (t, ret, first))
      go none = refl
      go (some (u, ret, first)) = end_paint ret first _ _ (fix_delete_paint u k v r)

  delete_right_paint :
      (rec : Call K V) (l : Tree K V) (k : K) (v : V) (r : Tree K V)
      → painted (delete_right rec (node black l k v r))
        ≡ painted (delete_right rec (node red l k v r))
  unfolding delete_right
  delete_right_paint rec l k v r = go (rec (some k) r)
    where
      go :
          (o : Option (Tree K V × Bool × Option K))
          → painted (
              o >>= λ (u, ret, first).
              fix_delete (node black l k v u) >>= λ t. some (t, ret, first))
            ≡ painted (
                o >>= λ (u, ret, first).
                fix_delete (node red l k v u) >>= λ t. some (t, ret, first))
      go none = refl
      go (some (u, ret, first)) = end_paint ret first _ _ (fix_delete_paint l k v u)

  pub delete_smaller_paint :
      (first : Option K) (rec : Call K V) (l : Tree K V) (k : K) (v : V) (r : Tree K V)
      → painted (delete_smaller first rec (node black l k v r))
        ≡ painted (delete_smaller first rec (node red l k v r))
  unfolding delete_smaller is_two_node move_red_left
  delete_smaller_paint first rec leaf k v r = refl
  delete_smaller_paint first rec (node red ll lk lv lr) k v r =
      delete_left_paint rec (node red ll lk lv lr) k v r
  delete_smaller_paint first rec (node black ll lk lv lr) k v r = elim (Bool-cases (is_red ll)) [
    | inl e ↦ rw (e, if◌then◌else◌) (delete_left_paint rec (node black ll lk lv lr) k v r)
    | inr e ↦ rw (e, if◌then◌else◌) (moved r)
  ]
    where
      l' : Tree K V
      l' = node red ll lk lv lr

      moved :
          (r : Tree K V)
          → painted
              (move_red_left (node black (node black ll lk lv lr) k v r) >>= λ t. delete_left rec t)
            ≡ painted
                (move_red_left (node red (node black ll lk lv lr) k v r) >>= λ t. delete_left rec t)
      moved leaf = refl
      moved (node e leaf rk rv rr) =
          sym (delete_left_paint rec l' k v (node (toggled e) leaf rk rv rr))
      moved (node e (node black a ak av b) rk rv rr) =
          sym (delete_left_paint rec l' k v (node (toggled e) (node black a ak av b) rk rv rr))
      moved (node e (node red a ak av b) rk rv rr) =
          delete_left_paint rec (node black l' k v a) ak av (node black b rk rv rr)

module _ {K V : Type 0} (cmp : K → K → Ordering) where
  delete_found_paint :
      (first : Option K) (l : Tree K V) (k : K) (v : V) (r : Tree K V)
      → painted (delete_found cmp first (node black l k v r))
        ≡ painted (delete_found cmp first (node red l k v r))
  unfolding delete_found
  delete_found_paint first l k v r = go (delete_min (suc (size r)) r)
    where
      go :
          (o : Option (Option (K × V) × Tree K V))
          → painted (
              o >>= λ (n, u). n >>= λ (mk, mv). fix_delete (node black l mk mv u) >>= λ t.
              some (t, true, if is_first cmp first k then some mk else first))
            ≡ painted (
                o >>= λ (n, u). n >>= λ (mk, mv). fix_delete (node red l mk mv u) >>= λ t.
                some (t, true, if is_first cmp first k then some mk else first))
      go none = refl
      go (some (none, u)) = refl
      go (some (some (mk, mv), u)) = end_paint true _ _ _ (fix_delete_paint l mk mv u)

  here_or_right_paint :
      (first : Option K) (rec : Call K V) (q : K) (l : Tree K V) (k : K) (v : V) (r : Tree K V)
      → painted (delete_here_or_right cmp first rec (node black l k v r) q)
        ≡ painted (delete_here_or_right cmp first rec (node red l k v r) q)
  unfolding delete_here_or_right
  here_or_right_paint first rec q l k v r =
      ground (arith, delete_found_paint first l k v r, delete_right_paint rec l k v r)

  delete_leaning_paint :
      (parent first : Option K) (rec : Call K V) (q : K) (l : Tree K V) (k : K) (v : V)
      (r : Tree K V)
      → painted (delete_leaning cmp parent first rec (node black l k v r) q)
        ≡ painted (delete_leaning cmp parent first rec (node red l k v r) q)
  unfolding delete_leaning is_two_node move_red_right
  delete_leaning_paint parent first rec q l k v leaf =
      ground (arith, here_or_right_paint first rec q l k v leaf)
  delete_leaning_paint parent first rec q l k v (node red rl rk rv rr) =
      here_or_right_paint first rec q l k v (node red rl rk rv rr)
  delete_leaning_paint parent first rec q l k v (node black rl rk rv rr) =
      elim (Bool-cases (is_red rl)) [
        | inl e ↦
            rw (e, if◌then◌else◌) (here_or_right_paint first rec q l k v (node black rl rk rv rr))
        | inr e ↦ rw (e, if◌then◌else◌) (moved l)
      ]
    where
      r' : Tree K V
      r' = node red rl rk rv rr

      moved :
          (l : Tree K V)
          → painted (
              move_red_right (node black l k v (node black rl rk rv rr)) >>= λ t.
              delete_here_or_right cmp first rec t q)
            ≡ painted (
                move_red_right (node red l k v (node black rl rk rv rr)) >>= λ t.
                delete_here_or_right cmp first rec t q)
      moved leaf = refl
      moved (node c leaf lk lv lr) =
          sym (here_or_right_paint first rec q (node (toggled c) leaf lk lv lr) k v r')
      moved (node c (node black a ak av b) lk lv lr) = sym (
          here_or_right_paint first rec q (node (toggled c) (node black a ak av b) lk lv lr) k v r')
      moved (node c (node red a ak av b) lk lv lr) =
          here_or_right_paint first rec q (node black a ak av b) lk lv (node black lr k v r')

  pub delete_other_paint :
      (parent first : Option K) (rec : Call K V) (q : K) (l : Tree K V) (k : K) (v : V)
      (r : Tree K V)
      → painted (delete_other cmp parent first rec (node black l k v r) q)
        ≡ painted (delete_other cmp parent first rec (node red l k v r) q)
  unfolding delete_other rotate_right
  delete_other_paint parent first rec q leaf k v r =
      delete_leaning_paint parent first rec q leaf k v r
  delete_other_paint parent first rec q (node black ll lk lv lr) k v r =
      delete_leaning_paint parent first rec q (node black ll lk lv lr) k v r
  delete_other_paint parent first rec q (node red ll lk lv lr) k v r =
      delete_leaning_paint parent first rec q ll lk lv (node red lr k v r)
