-- ===== src/Treemap/Ops.antt =====
-- The operations of treemap.c that compare keys.
use liteflow.Base.{
  ℕ, zero, suc, Bool, true, false, Option, none, some, Ordering, if◌then◌else◌, ◌>>=◌,
}
use liteflow.Base.Word.{add32, sub32}
use liteflow.Treemap.Defs.{
  red, Tree, leaf, node, Treemap, InsertRet, added, exists, no_memory, is_red, is_leaf, blacken,
  rotate_right, move_red_left, move_red_right, fix_insert, fix_delete, is_two_node, delete_min,
  size,
}

-- tm->first == *node: a node is identified by its key.
unfoldable pub is_first {ℓ} : {K : Type ℓ} → (K → K → Ordering) → Option K → K → Bool
is_first cmp none k = false
is_first cmp (some j) k = elim (cmp j k) [ Ordering.eq ↦ true | _ ↦ false ]

-- create_node counts the node.
abbrev pub counted : ℕ → InsertRet → ℕ
counted n added = add32 n 1
counted n ret = n

-- A recursive call of treemap_delete_internal: the parent of the subtree, tm->first, the subtree.
abbrev pub Call {ℓ κ} : Type ℓ → Type κ → Type (ℓ ⊔ κ)
Call K V = Option K → Tree K V → Option (Tree K V × Bool × Option K)

module _ {ℓ κ} {K : Type ℓ} {V : Type κ} where
  abbrev pub root_key : Tree K V → Option K
  root_key leaf = none
  root_key (node c l k v r) = some k

  -- What is done with a changed child: nothing more unless a node was added.
  unfoldable pub after_insert :
      Tree K V → InsertRet → Option K → Option (Tree K V × InsertRet × Option K)
  after_insert t added first = do u ← fix_insert t; some (u, added, first)
  after_insert t ret first = some (t, ret, first)

  -- The call on the left link, and the balancing after it.
  unfoldable pub delete_left : Call K V → Tree K V → Option (Tree K V × Bool × Option K)
  delete_left rec leaf = none
  delete_left rec (node c l k v r) = do
    (l', ret, first) ← rec (some k) l
    t ← fix_delete (node c l' k v r)
    some (t, ret, first)

  -- The call on the right link.
  unfoldable pub delete_right : Call K V → Tree K V → Option (Tree K V × Bool × Option K)
  delete_right rec leaf = none
  delete_right rec (node c l k v r) = do
    (r', ret, first) ← rec (some k) r
    t ← fix_delete (node c l k v r')
    some (t, ret, first)

  -- The half of treemap_delete_internal for a smaller key.
  unfoldable pub delete_smaller :
      Option K → Call K V → Tree K V → Option (Tree K V × Bool × Option K)
  delete_smaller first rec leaf = none
  delete_smaller first rec (node c leaf k v r) = some (node c leaf k v r, false, first)
  delete_smaller first rec (node c (node d ll lk lv lr) k v r) = do
    two ← is_two_node (node d ll lk lv lr)
    t ←
        if two
        then move_red_left (node c (node d ll lk lv lr) k v r)
        else some (node c (node d ll lk lv lr) k v r)
    delete_left rec t

module _ {ℓ κ} {K : Type ℓ} {V : Type κ} (cmp : K → K → Ordering) where
  -- tm->first moves to the new left child where the first node got one.
  unfoldable pub first_after : Option K → K → Tree K V → InsertRet → Option K
  unfolding is_first
  first_after first k l added = if is_first cmp first k then root_key l else first
  first_after first k l ret = first

  -- `alloc` says whether malloc succeeds. The result is the subtree, the code returned and tm->first.
  unfoldable pub treemap_insert_internal :
      Bool → Option K → Tree K V → K → V → Option (Tree K V × InsertRet × Option K)
  unfolding after_insert first_after
  treemap_insert_internal alloc first leaf q w =
      if alloc then some (node red leaf q w leaf, added, first) else some (leaf, no_memory, first)
  treemap_insert_internal alloc first (node c l k v r) q w = elim (cmp q k) [
    | Ordering.gt ↦ do
      (r', ret, first') ← treemap_insert_internal alloc first r q w
      after_insert (node c l k v r') ret first'
    | Ordering.lt ↦ do
      (l', ret, first') ← treemap_insert_internal alloc first l q w
      after_insert (node c l' k v r) ret (first_after first' k l' ret)
    | Ordering.eq ↦ some (node c l k v r, exists, first)
  ]

  -- tm->root->color = NODE_BLACK follows with no test for NULL.
  unfoldable pub treemap_insert : Bool → Treemap K V → K → V → Option (Treemap K V × InsertRet)
  unfolding treemap_insert_internal
  treemap_insert alloc tm q w = do
    (t, ret, first) ← treemap_insert_internal alloc tm.first tm.root q w
    if is_leaf t
        then none
        else some
            (record { node_cnt = counted tm.node_cnt ret; root = blacken t; first = first }, ret)

  unfoldable pub treemap_get : Tree K V → K → Option V
  treemap_get leaf q = none
  treemap_get (node c l k v r) q = elim (cmp q k) [
    | Ordering.gt ↦ treemap_get r q
    | Ordering.lt ↦ treemap_get l q
    | Ordering.eq ↦ some v
  ]

  -- The loops carry `result`, the last node at which they went left.
  unfoldable pub lower_bound_from : Option (K × V) → Tree K V → K → Option (K × V)
  lower_bound_from result leaf q = result
  lower_bound_from result (node c l k v r) q = elim (cmp k q) [
    | Ordering.lt ↦ lower_bound_from result r q
    | _ ↦ lower_bound_from (some (k, v)) l q
  ]

  unfoldable pub treemap_lower_bound : Treemap K V → K → Option (K × V)
  unfolding lower_bound_from
  treemap_lower_bound tm q = lower_bound_from none tm.root q

  unfoldable pub upper_bound_from : Option (K × V) → Tree K V → K → Option (K × V)
  upper_bound_from result leaf q = result
  upper_bound_from result (node c l k v r) q = elim (cmp q k) [
    | Ordering.lt ↦ upper_bound_from (some (k, v)) l q
    | _ ↦ upper_bound_from result r q
  ]

  unfoldable pub treemap_upper_bound : Treemap K V → K → Option (K × V)
  unfolding upper_bound_from
  treemap_upper_bound tm q = upper_bound_from none tm.root q

  -- The node found is replaced by the least node of its right subtree.
  unfoldable pub delete_found : Option K → Tree K V → Option (Tree K V × Bool × Option K)
  delete_found first leaf = none
  delete_found first (node c l k v r) = do
    (n, r') ← delete_min (suc (size r)) r
    (mk, mv) ← n
    t ← fix_delete (node c l mk mv r')
    some (t, true, if is_first cmp first k then some mk else first)

  -- The last step of the right half: the key of the node is compared again after the rotations.
  unfoldable pub delete_here_or_right :
      Option K → Call K V → Tree K V → K → Option (Tree K V × Bool × Option K)
  delete_here_or_right first rec leaf q = none
  delete_here_or_right first rec (node c l k v r) q = elim (cmp q k) [
    | Ordering.eq ↦ delete_found first (node c l k v r)
    | _ ↦ delete_right rec (node c l k v r)
  ]

  -- The middle of the right half: the release of a node with no right child, else the move of a red
  -- link to the right.
  unfoldable pub delete_leaning :
      Option K → Option K → Call K V → Tree K V → K → Option (Tree K V × Bool × Option K)
  delete_leaning parent first rec leaf q = none
  delete_leaning parent first rec (node c l k v leaf) q = elim (cmp q k) [
    | Ordering.eq ↦ some (leaf, true, if is_first cmp first k then parent else first)
    | _ ↦ delete_here_or_right first rec (node c l k v leaf) q
  ]
  delete_leaning parent first rec (node c l k v (node d rl rk rv rr)) q = do
    two ← is_two_node (node d rl rk rv rr)
    t ←
        if two
        then move_red_right (node c l k v (node d rl rk rv rr))
        else some (node c l k v (node d rl rk rv rr))
    delete_here_or_right first rec t q

  -- The other half.
  unfoldable pub delete_other :
      Option K → Option K → Call K V → Tree K V → K → Option (Tree K V × Bool × Option K)
  delete_other parent first rec leaf q = none
  delete_other parent first rec (node c l k v r) q = do
    t ← if is_red l then rotate_right (node c l k v r) else some (node c l k v r)
    delete_leaning parent first rec t q

  -- The result is the subtree, the code returned and tm->first. The size of the tree is enough fuel.
  unfoldable pub treemap_delete_internal :
      ℕ → Option K → Option K → Tree K V → K → Option (Tree K V × Bool × Option K)
  treemap_delete_internal zero parent first t q = none
  treemap_delete_internal (suc f) parent first leaf q = some (leaf, false, first)
  treemap_delete_internal (suc f) parent first (node c l k v r) q =
      let rec : Call K V = λ p u. treemap_delete_internal f p first u q in
      elim (cmp q k) [
        | Ordering.lt ↦ delete_smaller first rec (node c l k v r)
        | _ ↦ delete_other parent first rec (node c l k v r) q
      ]

  unfoldable pub treemap_delete : Treemap K V → K → Option (Treemap K V × Bool)
  treemap_delete tm q = do
    (t, ret, first) ← treemap_delete_internal (suc (size tm.root)) none tm.first tm.root q
    some (
      record {
        node_cnt = if ret then sub32 tm.node_cnt 1 else tm.node_cnt;
        root = blacken t;
        first = first;
      },
      ret,
    )
