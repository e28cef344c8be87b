-- ===== src/Treemap/Shape.antt =====
-- The red-black shape, and what the balancing steps of an insertion do to it.
use liteflow.Base.{ℕ, suc, ◌≡◌, arith, false, Option, none, some}
use liteflow.Treemap.Defs.{Color, red, black, Tree, leaf, node, is_red, fix_insert}

-- The computation ends without a fault, in a value that satisfies `P`.
abbrev pub Returns {ℓ} : {A : Type ℓ} → Option A → (A → Type 0) → Type 0
Returns none P = ⊥
Returns (some a) P = P a

module _ {K V : Type 0} where
  -- Black nodes on the left spine.
  abbrev pub black_height : Tree K V → ℕ
  black_height leaf = 0
  black_height (node red l k v r) = black_height l
  black_height (node black l k v r) = suc (black_height l)

  -- A red node has black children, a black one has a black right child, and all paths down hold the
  -- same number of black nodes.
  abbrev pub IsLlrb : Tree K V → Type 0
  IsLlrb leaf = Unit
  IsLlrb (node red l k v r) =
      (is_red l ≡ false)
      × (is_red r ≡ false)
      × (black_height l ≡ black_height r)
      × IsLlrb l
      × IsLlrb r
  IsLlrb (node black l k v r) =
      (is_red r ≡ false) × (black_height l ≡ black_height r) × IsLlrb l × IsLlrb r

  -- The same, but that a red root may have a red left child.
  abbrev pub IsAlmost : Tree K V → Type 0
  IsAlmost leaf = Unit
  IsAlmost (node c l k v r) =
      (is_red r ≡ false) × (black_height l ≡ black_height r) × IsLlrb l × IsLlrb r

  -- `u` has the black height of `t` and a good shape, but that where `t` was red, `u` may be a red
  -- node with a red left child.
  pub record Regrown (t u : Tree K V) : Type 0 where
    pub height : black_height u ≡ black_height t
    pub almost : IsAlmost u
    pub shaped : is_red t ≡ false → IsLlrb u

  pub fix_insert-Regrown_left :
      (c : Color) (l l' : Tree K V) (k : K) (v : V) (r : Tree K V)
      → IsLlrb (node c l k v r)
      → Regrown l l'
      → Returns (fix_insert (node c l' k v r)) (Regrown (node c l k v r))
  unfolding fix_insert
  fix_insert-Regrown_left red l leaf k v r t g = ground arith
  fix_insert-Regrown_left red l (node d ll lk lv lr) k v r t g = ground arith
  fix_insert-Regrown_left black l leaf k v r t g = ground arith
  fix_insert-Regrown_left black l (node black ll lk lv lr) k v r t g = ground arith
  fix_insert-Regrown_left black l (node red leaf lk lv lr) k v r t g = ground arith
  fix_insert-Regrown_left black l (node red (node black lll llk llv llr) lk lv lr) k v r t g =
      ground arith
  fix_insert-Regrown_left black l (node red (node red lll llk llv llr) lk lv lr) k v r t g =
      ground arith

  pub fix_insert-Regrown_right :
      (c : Color) (l : Tree K V) (k : K) (v : V) (r r' : Tree K V)
      → IsLlrb (node c l k v r)
      → Regrown r r'
      → Returns (fix_insert (node c l k v r')) (Regrown (node c l k v r))
  unfolding fix_insert
  fix_insert-Regrown_right c leaf k v r leaf t g = ground arith
  fix_insert-Regrown_right c leaf k v r (node d rl rk rv rr) t g = ground arith
  fix_insert-Regrown_right c (node d ll lk lv lr) k v r leaf t g = ground arith
  fix_insert-Regrown_right c (node d ll lk lv lr) k v r (node e rl rk rv rr) t g = ground arith

  pub IsLlrb-children :
      (c : Color) (l : Tree K V) (k : K) (v : V) (r : Tree K V)
      → IsLlrb (node c l k v r)
      → IsLlrb l × IsLlrb r
  IsLlrb-children red l k v r h = ground arith
  IsLlrb-children black l k v r h = ground arith
