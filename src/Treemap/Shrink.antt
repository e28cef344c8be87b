-- ===== src/Treemap/Shrink.antt =====
-- What the balancing steps of a deletion do to the red-black shape.
use liteflow.Base.{
  ℕ, suc, ◌<◌, ◌≡◌, ◌⊎◌, inl, inr, refl, arith, true, false, some, if◌then◌else◌, not, ◌&&◌,
  Bool-cases,
}
use liteflow.Treemap.Defs.{
  Color, red, black, Tree, leaf, node, is_red, is_left_red, fix_delete, move_red_left,
}
use liteflow.Treemap.Shape.{Returns, black_height, IsLlrb, IsLlrb-children}

-- The black height of a node of a colour, over children of a black height.
abbrev pub height_over : Color → ℕ → ℕ
height_over red n = n
height_over black n = suc n

module _ {K V : Type 0} where
  -- `u` has the black height of `t` and a good shape, and is red only where `t` was.
  pub record Shrunk (t u : Tree K V) : Type 0 where
    pub height : black_height u ≡ black_height t
    pub shaped : IsLlrb u
    pub blacker : is_red t ≡ false → is_red u ≡ false

  -- A node from which a link can be taken: it is red, or its left child is.
  abbrev pub IsLoose : Tree K V → Type 0
  IsLoose leaf = ⊥
  IsLoose (node c l k v r) =
      IsLlrb (node c l k v r) × ((is_red (node c l k v r) ≡ true) ⊎ (is_red l ≡ true))

  -- A black node over a black left and a red right child, as move_red_right leaves it.
  abbrev pub IsLeaning : Tree K V → Type 0
  IsLeaning leaf = ⊥
  IsLeaning (node c l k v r) =
      (is_red (node c l k v r) ≡ false)
      × (is_red l ≡ false)
      × (is_red r ≡ true)
      × (black_height l ≡ black_height r)
      × IsLlrb l
      × IsLlrb r

  -- What the balancing needs of the children of `t`, whose colours may be wrong by one red link.
  pub record Fixable (t : Tree K V) (c : Color) (l r : Tree K V) : Type 0 where
    pub left : IsLlrb l
    pub right : IsLlrb r
    pub level : black_height l ≡ black_height r
    pub reds : c ≡ red → (is_red l ≡ false) × (is_red r ≡ false)
    pub height : height_over c (black_height l) ≡ black_height t
    pub blacker : is_red t ≡ false → (c ≡ black) × ((is_red l ≡ false) ⊎ (is_red r ≡ false))

  pub fix_delete-Shrunk :
      (t : Tree K V) (c : Color) (l : Tree K V) (k : K) (v : V) (r : Tree K V)
      → Fixable t c l r
      → Returns (fix_delete (node c l k v r)) (Shrunk t)
  unfolding fix_delete
  fix_delete-Shrunk t red l k v leaf f = ground (arith, f.reds refl)
  fix_delete-Shrunk t red l k v (node d rl rk rv rr) f = ground (arith, f.reds refl)
  fix_delete-Shrunk t black leaf k v leaf f = ground arith
  fix_delete-Shrunk t black leaf k v (node red rl rk rv rr) f = ground arith
  fix_delete-Shrunk t black leaf k v (node black rl rk rv rr) f = ground arith
  fix_delete-Shrunk t black (node red ll lk lv lr) k v leaf f = ground arith
  fix_delete-Shrunk t black (node black ll lk lv lr) k v leaf f = ground arith
  fix_delete-Shrunk t black (node red ll lk lv lr) k v (node red rl rk rv rr) f = ground arith
  fix_delete-Shrunk t black (node black ll lk lv lr) k v (node red rl rk rv rr) f = ground arith
  fix_delete-Shrunk t black (node red ll lk lv lr) k v (node black rl rk rv rr) f = ground arith
  fix_delete-Shrunk t black (node black ll lk lv lr) k v (node black rl rk rv rr) f = ground arith

  -- A tree from whose left subtree a node can be deleted.
  abbrev pub LeftReady : Tree K V → Tree K V → Type 0
  LeftReady t leaf = ⊥
  LeftReady t (node c l k v r) = IsLoose l × Fixable t c l r

  pub move_red_left-LeftReady :
      (l : Tree K V) (k : K) (v : V) (r : Tree K V)
      → IsLlrb (node red l k v r)
      → is_left_red l ≡ false
      → 0 < black_height l
      → Returns (move_red_left (node red l k v r)) (LeftReady (node red l k v r))
  unfolding move_red_left
  move_red_left-LeftReady leaf k v r h n p = absurd (ground arith)
  move_red_left-LeftReady (node red ll lk lv lr) k v r h n p = absurd (ground arith)
  move_red_left-LeftReady (node black ll lk lv lr) k v leaf h n p = absurd (ground arith)
  move_red_left-LeftReady (node black ll lk lv lr) k v (node red rl rk rv rr) h n p =
      absurd (ground arith)
  move_red_left-LeftReady (node black ll lk lv lr) k v (node black leaf rk rv rr) h n p =
      ground arith
  move_red_left-LeftReady (node black ll lk lv lr) k v (node black (node d a ak av b) rk rv rr) h n
        p =
      ground arith

  -- A node from which a link can be taken, and its left child with its place, when nothing is moved.
  stays-LeftReady :
      (c : Color) (l : Tree K V) (k : K) (v : V) (r : Tree K V)
      → IsLoose (node c l k v r)
      → IsLoose l
      → LeftReady (node c l k v r) (node c l k v r)
  stays-LeftReady red l k v r h n = ground arith
  stays-LeftReady black l k v r h n = ground arith

  -- On the way to the left a red link is moved along where it is needed.
  pub left_choice-LeftReady :
      (c d : Color) (ll : Tree K V) (lk : K) (lv : V) (lr : Tree K V) (k : K) (v : V) (r : Tree K V)
      → let l = node d ll lk lv lr in
        IsLoose (node c l k v r)
        → Returns
            (if not (is_red l) && not (is_red ll)
              then move_red_left (node c l k v r)
              else some (node c l k v r))
            (LeftReady (node c l k v r))
  left_choice-LeftReady c red ll lk lv lr k v r h =
      stays-LeftReady c (node red ll lk lv lr) k v r h
        ((IsLlrb-children c (node red ll lk lv lr) k v r h.0).0, inl refl)
  left_choice-LeftReady red black ll lk lv lr k v r h = elim (Bool-cases (is_red ll)) [
    | inl e ↦
        rw (e, if◌then◌else◌)
          (stays-LeftReady red (node black ll lk lv lr) k v r h
            ((IsLlrb-children red (node black ll lk lv lr) k v r h.0).0, inr e))
    | inr e ↦
        rw (e, if◌then◌else◌)
          (move_red_left-LeftReady (node black ll lk lv lr) k v r h.0 e (omega arith))
  ]
  left_choice-LeftReady black black ll lk lv lr k v r h = absurd (ground arith)
