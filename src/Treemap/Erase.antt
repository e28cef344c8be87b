-- ===== src/Treemap/Erase.antt =====
-- The recursion of treemap_delete_internal, and treemap_delete as a whole.
use liteflow.Base.{
  ℕ, zero, suc, ◌≤◌, ◌<◌, ◌≡◌, ◌⊎◌, inl, inr, refl, arith, Bool, false, Option, none, some, ◌>>=◌,
  if◌then◌else◌, ap, ◌∙◌, Ordering, Ordering-cases, Bool-cases,
}
use liteflow.Base.Word.{sub32}
use liteflow.Treemap.Defs.{red, black, Tree, leaf, node, Treemap, to_list, size, is_red, blacken}
use liteflow.Treemap.Ops.{Call, treemap_delete_internal, treemap_delete}
use liteflow.Treemap.Entries.{
  IsRanked, SortedFrom, erase_entry, find_entry, SortedFrom-tail, erase_entry-SortedFrom,
}
use liteflow.Treemap.Shape.{Returns, IsLlrb}
use liteflow.Treemap.Shrink.{IsLoose, IsLeaning}
use liteflow.Treemap.Insert.{IsValid}
use liteflow.Treemap.Rightward.{is_some, Deleted, IsReady, CallsRight}
use liteflow.Treemap.Delete.{delete_other-Deleted, delete_smaller-Deleted}
use liteflow.Treemap.Recolor.{painted, delete_smaller_paint, delete_other_paint}

module _ {K V : Type 0} (cmp : K → K → Ordering) where
  internal_paint :
      (f : ℕ) (parent first : Option K) (l : Tree K V) (k : K) (v : V) (r : Tree K V) (q : K)
      → painted (treemap_delete_internal cmp (suc f) parent first (node black l k v r) q)
        ≡ painted (treemap_delete_internal cmp (suc f) parent first (node red l k v r) q)
  unfolding treemap_delete_internal
  internal_paint f parent first l k v r q =
      let rec : Call K V = λ p u. treemap_delete_internal cmp f p first u q in
      ground (
        arith,
        delete_smaller_paint first rec l k v r,
        delete_other_paint cmp parent first rec q l k v r,
      )

module _ {K V : Type 0} where
  IsLlrb-blacken : (t : Tree K V) → IsLlrb t → IsLlrb (blacken t)
  IsLlrb-blacken leaf h = tt
  IsLlrb-blacken (node red l k v r) h = ground arith
  IsLlrb-blacken (node black l k v r) h = h

  is_red-blacken : (t : Tree K V) → is_red (blacken t) ≡ false
  is_red-blacken leaf = refl
  is_red-blacken (node c l k v r) = refl

  to_list-blacken : (t : Tree K V) → to_list (blacken t) ≡ to_list t
  to_list-blacken leaf = refl
  to_list-blacken (node c l k v r) = refl

-- What treemap_delete returns on a map: a valid map without the key, and whether the key was there.
pub record Deletes {K V : Type 0} (cmp : K → K → Ordering) (D : K → Type 0) (rank : K → ℕ) (q : K)
    (tm : Treemap K V) (res : Treemap K V × Bool) : Type 0 where
  pub valid : IsValid D rank res.0
  pub entries : to_list res.0.root ≡ erase_entry cmp q (to_list tm.root)
  pub reports : res.1 ≡ is_some (find_entry cmp q (to_list tm.root))
  pub counted : res.0.node_cnt ≡ (if res.1 then sub32 tm.node_cnt 1 else tm.node_cnt)

module _ {K V : Type 0} {cmp : K → K → Ordering} {D : K → Type 0} {rank : K → ℕ}
    (law : IsRanked cmp D rank) (q : K) (d : D q) where
  internal-Deleted :
      (f : ℕ) (parent first : Option K) (t : Tree K V) (lo : ℕ)
      → size t < f
      → IsReady law q d t
      → SortedFrom D rank lo (to_list t)
      → Returns (treemap_delete_internal cmp f parent first t q) (Deleted cmp q t)
  unfolding treemap_delete_internal
  internal-Deleted zero parent first t lo h ready s = absurd (omega arith)
  internal-Deleted (suc f) parent first leaf lo h ready s = ground arith
  internal-Deleted (suc f) parent first (node c l k v r) lo h ready s =
      let rec : Call K V = λ p u. treemap_delete_internal cmp f p first u q in
      let dk = (SortedFrom-tail law lo (to_list l) k v (to_list r) s).0 in
      let calls : CallsRight law q d rec (size (node c l k v r)) =
        λ p u lo' small ready' s'. internal-Deleted f p first u lo' (omega arith) ready' s' in
      let ranked = law.cmp_rank q k d dk in
      elim (Ordering-cases (cmp q k)) [
        | inl e ↦
            let below : rank q < rank k = ground arith in
            let loose : IsLoose (node c l k v r) = ground (arith, ready) in
            rw (e, treemap_delete_internal)
              (delete_smaller-Deleted law q d lo first rec c l k v r loose s below calls)
        | inr (inl e) ↦
            let above : rank k ≤ rank q = ground arith in
            rw (e, treemap_delete_internal)
              (delete_other-Deleted law q d lo parent first rec c l k v r (shape_of ready) s above
                calls)
        | inr (inr e) ↦
            let above : rank k ≤ rank q = ground arith in
            rw (e, treemap_delete_internal)
              (delete_other-Deleted law q d lo parent first rec c l k v r (shape_of ready) s above
                calls)
      ]
    where
      shape_of :
          IsReady law q d (node c l k v r) → IsLoose (node c l k v r) ⊎ IsLeaning (node c l k v r)
      shape_of (inl h) = inl h
      shape_of (inr h) = inr h.0

  -- A call on a tree with the entries of `t` that ends as `o` does, but for the colour of the root.
  record Loosened (t : Tree K V) (o : Option (Tree K V × Bool × Option K)) : Type 0 where
    tree : Tree K V
    call : Option (Tree K V × Bool × Option K)
    same : painted o ≡ painted call
    listed : to_list tree ≡ to_list t
    deleted : Returns call (Deleted cmp q tree)

  -- The end of treemap_delete: its internal call may be replaced by one that differs in the colour of
  -- the root.
  finish :
      (tm : Treemap K V) (t : Tree K V) (o p : Option (Tree K V × Bool × Option K))
      → IsValid D rank tm
      → painted o ≡ painted p
      → to_list t ≡ to_list tm.root
      → Returns p (Deleted cmp q t)
      → Returns
          (o >>= λ (u, ret, first). some (
            record {
              node_cnt = if ret then sub32 tm.node_cnt 1 else tm.node_cnt;
              root = blacken u;
              first = first;
            },
            ret,
          ))
          (Deletes cmp D rank q tm)
  finish tm t o none valid e same h = absurd h
  finish tm t none (some (u, ret, first)) valid e same h = absurd (ground (arith, e))
  finish tm t (some (u, ret, first)) (some (u', ret', first')) valid e same h =
      let roots : blacken u ≡ blacken u' = ground (arith, e) in
      let rets : ret ≡ ret' = ground (arith, e) in
      let listed : to_list (blacken u) ≡ erase_entry cmp q (to_list tm.root) =
        rw (roots, to_list-blacken u', h.entries, same) refl in
      record {
        valid = record {
          shaped = rw roots (IsLlrb-blacken u' h.shrunk.shaped);
          rooted = is_red-blacken u;
          sorted = rw listed (erase_entry-SortedFrom law 0 q (to_list tm.root) valid.sorted);
        };
        entries = listed;
        reports = rets ∙ (h.reports ∙ ap (λ xs. is_some (find_entry cmp q xs)) same);
        counted = refl;
      }

  -- A black root with a black left child: the call does what it does on a red root.
  loosened :
      (t : Tree K V) (first : Option K)
      → IsLlrb t
      → is_red t ≡ false
      → SortedFrom D rank 0 (to_list t)
      → Loosened t (treemap_delete_internal cmp (suc (size t)) none first t q)
  unfolding treemap_delete_internal
  loosened leaf first h b s = record {
    tree = leaf;
    call = some (leaf, false, first);
    same = refl;
    listed = refl;
    deleted = internal-Deleted 1 none first leaf 0 (omega arith) tt s;
  }
  loosened (node red l k v r) first h b s = cc
  loosened (node black l k v r) first h b s = elim (Bool-cases (is_red l)) [
    | inl e ↦ record {
      tree = node black l k v r;
      call =
          treemap_delete_internal cmp (suc (size (node black l k v r))) none first
            (node black l k v r) q;
      same = refl;
      listed = refl;
      deleted =
          internal-Deleted (suc (size (node black l k v r))) none first (node black l k v r) 0
            (omega arith) (inl (h, inr e)) s;
    }
    | inr e ↦ record {
      tree = node red l k v r;
      call =
          treemap_delete_internal cmp (suc (size (node black l k v r))) none first
            (node red l k v r) q;
      same = internal_paint cmp (size (node black l k v r)) none first l k v r q;
      listed = refl;
      deleted =
          internal-Deleted (suc (size (node black l k v r))) none first (node red l k v r) 0
            (omega arith) (inl (ground arith, inl refl)) s;
    }
  ]

  -- On a valid map treemap_delete never reads through NULL and its fuel, the size of the tree, is
  -- enough. The entries in order are the old ones without the key, the code returned says whether the
  -- key was there, and the count is one less (modulo 2^32) where it was. The shape of a left-leaning
  -- red-black tree is kept.
  pub treemap_delete-Deletes :
      (tm : Treemap K V)
      → IsValid D rank tm
      → Returns (treemap_delete cmp tm q) (Deletes cmp D rank q tm)
  unfolding treemap_delete
  treemap_delete-Deletes tm valid =
      let m = loosened tm.root tm.first valid.shaped valid.rooted valid.sorted in
      finish tm m.tree _ m.call valid m.same m.listed m.deleted
