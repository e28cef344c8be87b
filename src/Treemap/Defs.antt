-- ===== src/Treemap/Defs.antt =====
-- The tree, its balancing steps, and the operations of treemap.c.
use liteflow.Base.{
  ℕ, zero, suc, ◌+◌, Bool, true, false, not, ◌&&◌, Option, none, some, List, [], ◌∷◌, ◌++◌,
  if◌then◌else◌, ◌>>=◌,
}

pub data Color : Type 0 where
  red black : Color

pub data Tree {ℓ κ} (K : Type ℓ) (V : Type κ) : Type (ℓ ⊔ κ) where
  leaf : Tree K V
  node : Color → Tree K V → K → V → Tree K V → Tree K V

pub record Treemap {ℓ κ} (K : Type ℓ) (V : Type κ) : Type (ℓ ⊔ κ) where
  pub node_cnt : ℕ
  pub root : Tree K V
  pub first : Option K

-- What treemap_insert_internal returns: 0, 1 and -1.
pub data InsertRet : Type 0 where
  added exists no_memory : InsertRet

abbrev pub toggled : Color → Color
toggled red = black
toggled black = red

module _ {ℓ κ} {K : Type ℓ} {V : Type κ} where
  -- The entries in the order of the keys.
  abbrev pub to_list : Tree K V → List (K × V)
  to_list leaf = []
  to_list (node c l k v r) = to_list l ++ ((k, v) ∷ to_list r)

  abbrev pub size : Tree K V → ℕ
  size leaf = 0
  size (node c l k v r) = suc (size l + size r)

  -- IS_RED(n)
  abbrev pub is_red : Tree K V → Bool
  is_red leaf = false
  is_red (node red l k v r) = true
  is_red (node black l k v r) = false

  -- IS_RED(n->left), for an n that is not NULL.
  abbrev pub is_left_red : Tree K V → Bool
  is_left_red leaf = false
  is_left_red (node c l k v r) = is_red l

  abbrev pub is_leaf : Tree K V → Bool
  is_leaf leaf = true
  is_leaf (node c l k v r) = false

  abbrev pub toggle : Tree K V → Tree K V
  toggle leaf = leaf
  toggle (node c l k v r) = node (toggled c) l k v r

  -- (*node)->color = NODE_BLACK, where *node is not NULL.
  abbrev pub blacken : Tree K V → Tree K V
  blacken leaf = leaf
  blacken (node c l k v r) = node black l k v r

  unfoldable pub rotate_left : Tree K V → Option (Tree K V)
  rotate_left (node c l k v (node d rl rk rv rr)) = some (node c (node red l k v rl) rk rv rr)
  rotate_left _ = none

  unfoldable pub rotate_right : Tree K V → Option (Tree K V)
  rotate_right (node c (node d ll lk lv lr) k v r) = some (node c ll lk lv (node red lr k v r))
  rotate_right _ = none

  unfoldable pub flip_color : Tree K V → Option (Tree K V)
  flip_color (node c (node d ll lk lv lr) k v (node e rl rk rv rr)) =
      some (node (toggled c) (node (toggled d) ll lk lv lr) k v (node (toggled e) rl rk rv rr))
  flip_color _ = none

  -- move_red_left after its flip_color.
  unfoldable pub move_red_left_flipped : Tree K V → Option (Tree K V)
  move_red_left_flipped leaf = none
  move_red_left_flipped (node c l k v r) =
      if is_left_red r
      then (do r' ← rotate_right r; t ← rotate_left (node c l k v r'); flip_color t)
      else some (node c l k v r)

  unfoldable pub move_red_left : Tree K V → Option (Tree K V)
  unfolding move_red_left_flipped flip_color rotate_left rotate_right
  move_red_left t = do u ← flip_color t; move_red_left_flipped u

  unfoldable pub move_red_right_flipped : Tree K V → Option (Tree K V)
  move_red_right_flipped leaf = none
  move_red_right_flipped (node c l k v r) =
      if is_left_red l
      then (do t ← rotate_right (node c l k v r); flip_color t)
      else some (node c l k v r)

  unfoldable pub move_red_right : Tree K V → Option (Tree K V)
  unfolding move_red_right_flipped flip_color rotate_right
  move_red_right t = do u ← flip_color t; move_red_right_flipped u

  -- The second and the third test of the balancing steps that end an insertion or a deletion.
  unfoldable pub split_reds : Tree K V → Option (Tree K V)
  unfolding flip_color
  split_reds leaf = none
  split_reds (node c l k v r) =
      if is_red l && is_red r then flip_color (node c l k v r) else some (node c l k v r)

  unfoldable pub lift_reds : Tree K V → Option (Tree K V)
  unfolding rotate_right split_reds
  lift_reds leaf = none
  lift_reds (node c l k v r) =
      if is_red l && is_left_red l
      then (do t ← rotate_right (node c l k v r); split_reds t)
      else split_reds (node c l k v r)

  -- "adjust llrb subtree balance" of treemap_insert_internal.
  unfoldable pub fix_insert : Tree K V → Option (Tree K V)
  unfolding rotate_left lift_reds
  fix_insert leaf = none
  fix_insert (node c l k v r) =
      if not (is_red l) && is_red r
      then (do t ← rotate_left (node c l k v r); lift_reds t)
      else lift_reds (node c l k v r)

  -- "fix node balance" of treemap_delete_internal and delete_min.
  unfoldable pub fix_delete : Tree K V → Option (Tree K V)
  unfolding rotate_left lift_reds
  fix_delete leaf = none
  fix_delete (node c l k v r) =
      if is_red r
      then (do t ← rotate_left (node c l k v r); lift_reds t)
      else lift_reds (node c l k v r)

  -- !IS_RED(n) && !IS_RED(n->left): a fault where n is NULL.
  unfoldable pub is_two_node : Tree K V → Option Bool
  is_two_node leaf = none
  is_two_node (node c l k v r) = some (not (is_red (node c l k v r)) && not (is_red l))

  -- The tree after (*node)->left and (*node)->right were changed.
  abbrev pub with_left : Tree K V → Tree K V → Option (Tree K V)
  with_left leaf l' = none
  with_left (node c l k v r) l' = some (node c l' k v r)

  unfoldable pub treemap_init : Treemap K V
  treemap_init = record { node_cnt = 0; root = leaf; first = none }

  unfoldable pub treemap_clear : Treemap K V → Treemap K V
  treemap_clear tm = record { node_cnt = 0; root = leaf; first = none }

  -- Walks down the left and down the right links.
  abbrev pub leftmost : Tree K V → Option K
  leftmost leaf = none
  leftmost (node c leaf k v r) = some k
  leftmost (node c (node d ll lk lv lr) k v r) = leftmost (node d ll lk lv lr)

  abbrev pub rightmost : Tree K V → Option (K × V)
  rightmost leaf = none
  rightmost (node c l k v leaf) = some (k, v)
  rightmost (node c l k v (node d rl rk rv rr)) = rightmost (node d rl rk rv rr)

  -- treemap_first fills the cached pointer.
  unfoldable pub treemap_first : Treemap K V → Treemap K V × Option K
  treemap_first tm = elim tm.first [
    | none ↦ (record tm { first = leftmost tm.root }, leftmost tm.root)
    | some k ↦ (tm, some k)
  ]

  unfoldable pub treemap_last : Treemap K V → Option (K × V)
  treemap_last tm = rightmost tm.root

  unfoldable pub treemap_size : Treemap K V → ℕ
  treemap_size tm = tm.node_cnt

  -- The recursive call of delete_min on the left link, and the balancing after it.
  unfoldable pub delete_min_under :
      (Tree K V → Option (Option (K × V) × Tree K V))
      → Tree K V
      → Option (Option (K × V) × Tree K V)
  unfolding fix_delete
  delete_min_under rec leaf = none
  delete_min_under rec (node c l k v r) = do
    (n, l') ← rec l
    u ← fix_delete (node c l' k v r)
    some (n, u)

  -- The detached least node (its key and value, `none` for NULL) and the tree without it. The tree is
  -- rebalanced on the way down, so the recursion is on fuel; one more than the size is enough.
  unfoldable pub delete_min : ℕ → Tree K V → Option (Option (K × V) × Tree K V)
  unfolding is_two_node move_red_left delete_min_under
  delete_min zero t = none
  delete_min (suc f) leaf = some (none, leaf)
  delete_min (suc f) (node c leaf k v r) = some (some (k, v), leaf)
  delete_min (suc f) (node c (node d ll lk lv lr) k v r) =
      let t = node c (node d ll lk lv lr) k v r in
      do
        two ← is_two_node (node d ll lk lv lr)
        u ← if two then move_red_left t else some t
        delete_min_under (λ w. delete_min f w) u
