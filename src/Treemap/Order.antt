-- ===== src/Treemap/Order.antt =====
-- The entries of a tree in order: the rotations keep them, and what a sorted list of entries is.
use liteflow.Base.{
  ◌≡◌, refl, Bool, true, false, not, ◌&&◌, Option, none, some, ◌>>=◌, if◌then◌else◌, ◌++◌, ◌∷◌,
  List, ap,
}
use mathlib.Core.List.{append_assoc}
use liteflow.Treemap.Defs.{
  Tree, leaf, node, to_list, is_red, is_left_red, rotate_left, rotate_right, flip_color, split_reds,
  lift_reds, fix_insert, fix_delete, move_red_left, move_red_right, move_red_left_flipped,
  move_red_right_flipped,
}

-- If the computation ends without a fault, the entries are `xs`, in their order.
pub data Keeps {K V : Type 0} (xs : List (K × V)) : Option (Tree K V) → Type 0 where
  faulted : Keeps xs none
  kept : {u : Tree K V} → to_list u ≡ xs → Keeps xs (some u)

module _ {K V : Type 0} where
  pub Keeps-some : {xs : List (K × V)} {u : Tree K V} → Keeps xs (some u) → to_list u ≡ xs
  Keeps-some (kept h) = h

  -- Keeping goes through a sequence of steps.
  Keeps-bind :
      {xs : List (K × V)} {o : Option (Tree K V)} {f : Tree K V → Option (Tree K V)}
      → Keeps xs o
      → ((u : Tree K V) → Keeps (to_list u) (f u))
      → Keeps xs (o >>= f)
  Keeps-bind faulted k = faulted
  Keeps-bind (kept {u = u} h) k = rw h at (k u)

  pub Keeps-if :
      {xs : List (K × V)} (b : Bool) {o p : Option (Tree K V)}
      → Keeps xs o
      → Keeps xs p
      → Keeps xs (if b then o else p)
  Keeps-if true h k = h
  Keeps-if false h k = k

  rotate_left-Keeps : (t : Tree K V) → Keeps (to_list t) (rotate_left t)
  unfolding rotate_left
  rotate_left-Keeps leaf = faulted
  rotate_left-Keeps (node c l k v leaf) = faulted
  rotate_left-Keeps (node c l k v (node d rl rk rv rr)) = kept (simp append_assoc)

  rotate_right-Keeps : (t : Tree K V) → Keeps (to_list t) (rotate_right t)
  unfolding rotate_right
  rotate_right-Keeps leaf = faulted
  rotate_right-Keeps (node c leaf k v r) = faulted
  rotate_right-Keeps (node c (node d ll lk lv lr) k v r) = kept (simp append_assoc)

  flip_color-Keeps : (t : Tree K V) → Keeps (to_list t) (flip_color t)
  unfolding flip_color
  flip_color-Keeps leaf = faulted
  flip_color-Keeps (node c leaf k v r) = faulted
  flip_color-Keeps (node c (node d ll lk lv lr) k v leaf) = faulted
  flip_color-Keeps (node c (node d ll lk lv lr) k v (node e rl rk rv rr)) = kept refl

  split_reds-Keeps : (t : Tree K V) → Keeps (to_list t) (split_reds t)
  unfolding split_reds
  split_reds-Keeps leaf = faulted
  split_reds-Keeps (node c l k v r) =
      Keeps-if (is_red l && is_red r) (flip_color-Keeps (node c l k v r)) (kept refl)

  lift_reds-Keeps : (t : Tree K V) → Keeps (to_list t) (lift_reds t)
  unfolding lift_reds
  lift_reds-Keeps leaf = faulted
  lift_reds-Keeps (node c l k v r) =
      let t = node c l k v r in
      Keeps-if (is_red l && is_left_red l) (Keeps-bind (rotate_right-Keeps t) split_reds-Keeps)
        (split_reds-Keeps t)

  pub fix_insert-Keeps : (t : Tree K V) → Keeps (to_list t) (fix_insert t)
  unfolding fix_insert
  fix_insert-Keeps leaf = faulted
  fix_insert-Keeps (node c l k v r) =
      let t = node c l k v r in
      Keeps-if (not (is_red l) && is_red r) (Keeps-bind (rotate_left-Keeps t) lift_reds-Keeps)
        (lift_reds-Keeps t)

  pub fix_delete-Keeps : (t : Tree K V) → Keeps (to_list t) (fix_delete t)
  unfolding fix_delete
  fix_delete-Keeps leaf = faulted
  fix_delete-Keeps (node c l k v r) =
      let t = node c l k v r in
      Keeps-if (is_red r) (Keeps-bind (rotate_left-Keeps t) lift_reds-Keeps) (lift_reds-Keeps t)

  move_red_left_flipped-Keeps : (t : Tree K V) → Keeps (to_list t) (move_red_left_flipped t)
  unfolding move_red_left_flipped
  move_red_left_flipped-Keeps leaf = faulted
  move_red_left_flipped-Keeps (node c l k v r) =
      Keeps-if (is_left_red r) (under (rotate_right-Keeps r)) (kept refl)
    where
      under :
          {o : Option (Tree K V)}
          → Keeps (to_list r) o
          → Keeps
              (to_list (node c l k v r))
              (o >>= λ r'. rotate_left (node c l k v r') >>= λ t. flip_color t)
      under faulted = faulted
      under (kept {u = u} h) =
          rw (ap (λ (ys : List (K × V)). to_list l ++ ((k, v) ∷ ys)) h) at
            (Keeps-bind (rotate_left-Keeps (node c l k v u)) flip_color-Keeps)

  pub move_red_left-Keeps : (t : Tree K V) → Keeps (to_list t) (move_red_left t)
  unfolding move_red_left
  move_red_left-Keeps t = Keeps-bind (flip_color-Keeps t) move_red_left_flipped-Keeps

  move_red_right_flipped-Keeps : (t : Tree K V) → Keeps (to_list t) (move_red_right_flipped t)
  unfolding move_red_right_flipped
  move_red_right_flipped-Keeps leaf = faulted
  move_red_right_flipped-Keeps (node c l k v r) =
      Keeps-if (is_left_red l) (Keeps-bind (rotate_right-Keeps (node c l k v r)) flip_color-Keeps)
        (kept refl)

  pub move_red_right-Keeps : (t : Tree K V) → Keeps (to_list t) (move_red_right t)
  unfolding move_red_right
  move_red_right-Keeps t = Keeps-bind (flip_color-Keeps t) move_red_right_flipped-Keeps
