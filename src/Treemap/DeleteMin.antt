-- ===== src/Treemap/DeleteMin.antt =====
-- delete_min detaches the least node of a tree from which a link can be taken.
use liteflow.Base.{
  ℕ, zero, suc, ◌<◌, ◌≡◌, refl, arith, not, ◌&&◌, Option, none, some, ◌>>=◌, if◌then◌else◌, ◌++◌,
  ◌∷◌, List, sym, ap, ◌∙◌, length, length-append,
}
use liteflow.Treemap.Defs.{
  Color, red, black, Tree, leaf, node, to_list, size, is_red, fix_delete, move_red_left, delete_min,
  delete_min_under,
}
use liteflow.Treemap.Order.{
  Keeps, Keeps-some, Keeps-if, kept, fix_delete-Keeps, move_red_left-Keeps,
}
use liteflow.Treemap.Shape.{Returns}
use liteflow.Treemap.Shrink.{
  Shrunk, IsLoose, Fixable, LeftReady, left_choice-LeftReady, fix_delete-Shrunk,
}

module _ {K V : Type 0} where
  pub size-to_list : (t : Tree K V) → size t ≡ length (to_list t)
  size-to_list leaf = refl
  size-to_list (node c l k v r) =
      omega (arith, length-append (to_list l) ((k, v) ∷ to_list r), size-to_list l, size-to_list r)

  pub size-same : (t u : Tree K V) → to_list u ≡ to_list t → size u ≡ size t
  size-same t u e = size-to_list u ∙ ap length e ∙ sym (size-to_list t)

  -- A subtree may be replaced by one of the same black height that is red only where it was.
  pub Fixable-left :
      (t : Tree K V) (c : Color) (l l' r : Tree K V)
      → Fixable t c l r
      → Shrunk l l'
      → Fixable t c l' r
  Fixable-left t c l l' r f s = ground arith

  -- The result of delete_min: the first entry, and a tree of the others.
  pub record MinOut (t : Tree K V) (res : Option (K × V) × Tree K V) : Type 0 where
    pub key : K
    pub value : V
    pub found : res.0 ≡ some (key, value)
    pub entries : to_list t ≡ (key, value) ∷ to_list res.1
    pub shrunk : Shrunk t res.1

  finish_min :
      (t l : Tree K V) (c : Color) (k : K) (v : V) (r : Tree K V)
      (res : Option (Option (K × V) × Tree K V))
      → Fixable t c l r
      → to_list (node c l k v r) ≡ to_list t
      → Returns res (MinOut l)
      → Returns (res >>= λ (n, l'). fix_delete (node c l' k v r) >>= λ u. some (n, u)) (MinOut t)
  finish_min t l c k v r none f e i = i
  finish_min t l c k v r (some (n, l')) f e i =
      fixed (fix_delete (node c l' k v r))
        (fix_delete-Shrunk t c l' k v r (Fixable-left t c l l' r f i.shrunk))
        (fix_delete-Keeps (node c l' k v r))
    where
      fixed :
          (o : Option (Tree K V))
          → Returns o (Shrunk t)
          → Keeps (to_list (node c l' k v r)) o
          → Returns (o >>= λ u. some (n, u)) (MinOut t)
      fixed none s h = s
      fixed (some u) s h = record {
        key = i.key;
        value = i.value;
        found = i.found;
        entries =
            sym e
            ∙ ap (λ (xs : List (K × V)). xs ++ ((k, v) ∷ to_list r)) i.entries
            ∙ ap (λ (xs : List (K × V)). (i.key, i.value) ∷ xs) (sym (Keeps-some h));
        shrunk = s;
      }

  delete_min_under-MinOut :
      (t : Tree K V) (rec : Tree K V → Option (Option (K × V) × Tree K V)) (o : Option (Tree K V))
      → Returns o (LeftReady t)
      → Keeps (to_list t) o
      → ((l : Tree K V) → IsLoose l → size l < size t → Returns (rec l) (MinOut l))
      → Returns (o >>= λ u. delete_min_under rec u) (MinOut t)
  unfolding delete_min_under
  delete_min_under-MinOut t rec none s h ih = s
  delete_min_under-MinOut t rec (some leaf) s h ih = absurd s
  delete_min_under-MinOut t rec (some (node c l k v r)) s h ih =
      let e = Keeps-some h in
      finish_min t l c k v r (rec l) s.1 e
        (ih l s.0 (omega (arith, size-same t (node c l k v r) e)))

  pub left_choice-Keeps :
      (c d : Color) (ll : Tree K V) (lk : K) (lv : V) (lr : Tree K V) (k : K) (v : V) (r : Tree K V)
      → let l = node d ll lk lv lr in
        Keeps (to_list (node c l k v r)) (
          if not (is_red l) && not (is_red ll)
          then move_red_left (node c l k v r)
          else some (node c l k v r))
  left_choice-Keeps c d ll lk lv lr k v r =
      Keeps-if (not (is_red (node d ll lk lv lr)) && not (is_red ll))
        (move_red_left-Keeps (node c (node d ll lk lv lr) k v r)) (kept refl)

  no_right_child :
      (c d : Color) (k : K) (v : V) (rl : Tree K V) (rk : K) (rv : V) (rr : Tree K V)
      → ¬ (IsLoose (node c leaf k v (node d rl rk rv rr)))
  no_right_child red red k v rl rk rv rr s = ground arith
  no_right_child red black k v rl rk rv rr s = ground arith
  no_right_child black d k v rl rk rv rr s = ground arith

  -- With fuel above the size of a tree from which a link can be taken, delete_min never reads through
  -- NULL; it returns the first entry and a tree of the others, of the same black height.
  pub delete_min-MinOut :
      (f : ℕ) (t : Tree K V) → size t < f → IsLoose t → Returns (delete_min f t) (MinOut t)
  unfolding delete_min
  delete_min-MinOut zero t h s = absurd (omega arith)
  delete_min-MinOut (suc f) leaf h s = absurd s
  delete_min-MinOut (suc f) (node c leaf k v leaf) h s = record {
    key = k;
    value = v;
    found = refl;
    entries = refl;
    shrunk = ground arith;
  }
  delete_min-MinOut (suc f) (node c leaf k v (node d rl rk rv rr)) h s =
      absurd (no_right_child c d k v rl rk rv rr s)
  delete_min-MinOut (suc f) (node c (node d ll lk lv lr) k v r) h s =
      delete_min_under-MinOut (node c (node d ll lk lv lr) k v r) (λ w. delete_min f w) _
        (left_choice-LeftReady c d ll lk lv lr k v r s) (left_choice-Keeps c d ll lk lv lr k v r)
        (λ l loose small. delete_min-MinOut f l (omega arith) loose)
