-- ===== src/Treemap/Insert.antt =====
-- Insertion: with memory it never reads through NULL, keeps the shape, and inserts one entry.
use liteflow.Base.{
  ℕ, suc, ◌≤◌, ◌≡◌, ◌⊎◌, inl, inr, refl, arith, true, false, Option, none, some, ◌>>=◌,
  if◌then◌else◌, ◌++◌, ◌∷◌, List, Ordering, Ordering-cases, sym, ap, ◌∙◌,
}
use liteflow.Base.Word.{add32}
use liteflow.Treemap.Defs.{
  Color, red, black, Tree, leaf, node, Treemap, InsertRet, added, exists, no_memory, to_list,
  is_red, fix_insert, is_leaf, blacken,
}
use liteflow.Treemap.Ops.{
  treemap_insert_internal, treemap_insert, after_insert, first_after, treemap_get, counted,
}
use liteflow.Treemap.Order.{Keeps, Keeps-some, fix_insert-Keeps}
use liteflow.Treemap.Entries.{
  IsRanked, SortedFrom, insert_entry, find_entry, insert_entry_lt, insert_entry_ge, find_entry_lt,
  find_entry_ge, SortedFrom-tail, SortedFrom-front, insert_entry-SortedFrom, insert_entry-ne-nil,
}
use liteflow.Treemap.Shape.{
  Returns, IsLlrb, IsAlmost, Regrown, IsLlrb-children, fix_insert-Regrown_left,
  fix_insert-Regrown_right,
}

module _ {K V : Type 0} (cmp : K → K → Ordering) where
  -- The code returned says whether the key was absent; a present key changes nothing.
  abbrev pub Reports : K → Tree K V → Tree K V → InsertRet → Type 0
  Reports q t u ret =
      ((ret ≡ added) × (find_entry cmp q (to_list t) ≡ none)) ⊎ ((ret ≡ exists) × (u ≡ t))

  -- A good result of the recursion.
  record Inserted (q : K) (w : V) (t : Tree K V) (res : Tree K V × InsertRet × Option K)
      : Type 0 where
    grown : Regrown t res.0
    entries : to_list res.0 ≡ insert_entry cmp q w (to_list t)
    reports : Reports q t res.0 res.1

  fixed :
      (q : K) (w : V) (t : Tree K V) (first : Option K) (xs : List (K × V)) (o : Option (Tree K V))
      → Returns o (Regrown t)
      → Keeps xs o
      → xs ≡ insert_entry cmp q w (to_list t)
      → find_entry cmp q (to_list t) ≡ none
      → Returns (o >>= λ u. some (u, added, first)) (Inserted q w t)
  fixed q w t first xs none g k e n = g
  fixed q w t first xs (some u) g k e n = record {
    grown = g;
    entries = Keeps-some k ∙ e;
    reports = inl (refl, n);
  }

  IsLlrb-Regrown : (t : Tree K V) → IsLlrb t → Regrown t t
  IsLlrb-Regrown leaf h = ground arith
  IsLlrb-Regrown (node red l k v r) h = ground arith
  IsLlrb-Regrown (node black l k v r) h = ground arith

  present :
      (q : K) (w : V) (t u : Tree K V) (first : Option K)
      → IsLlrb t
      → u ≡ t
      → to_list t ≡ insert_entry cmp q w (to_list t)
      → Inserted q w t (u, exists, first)
  present q w t u first h e s =
      rw e (record { grown = IsLlrb-Regrown t h; entries = s; reports = inr (refl, refl) })

  -- A present key left the subtree and its entries alone.
  unchanged :
      (q : K) (w : V) (t u : Tree K V) (first : Option K)
      → Inserted q w t (u, exists, first)
      → (u ≡ t) × (insert_entry cmp q w (to_list t) ≡ to_list t)
  unchanged q w t u first i =
      let same : u ≡ t = ground (arith, i.reports) in (same, sym i.entries ∙ ap to_list same)

module _ {K V : Type 0} {cmp : K → K → Ordering} {D : K → Type 0} {rank : K → ℕ}
    (law : IsRanked cmp D rank) (q : K) (w : V) (c : Color) (l : Tree K V) (k : K) (v : V)
    (r : Tree K V) (lo : ℕ) (h : IsLlrb (node c l k v r))
    (s : SortedFrom D rank lo (to_list l ++ ((k, v) ∷ to_list r))) (d : D q) where
  here_in : D k
  here_in = (SortedFrom-tail law lo (to_list l) k v (to_list r) s).0

  -- After the call on the left link.
  step_left :
      (o : Option (Tree K V × InsertRet × Option K))
      → cmp q k ≡ Ordering.lt
      → Returns o (Inserted cmp q w l)
      → Returns
          (o >>= λ (l', ret, first').
            after_insert (node c l' k v r) ret (first_after cmp first' k l' ret))
          (Inserted cmp q w (node c l k v r))
  unfolding after_insert
  step_left none e i = i
  step_left (some (l', added, first)) e i =
      fixed cmp q w (node c l k v r) _ (to_list (node c l' k v r)) (fix_insert (node c l' k v r))
        (fix_insert-Regrown_left c l l' k v r h i.grown) (fix_insert-Keeps (node c l' k v r))
        (rw i.entries (sym (insert_entry_lt law q w (to_list l) k v (to_list r) e)))
        (ground (
          arith,
          i.reports,
          find_entry_lt law lo q (to_list l) k v (to_list r) s d,
          law.cmp_rank q k d here_in,
        ))
  step_left (some (l', exists, first)) e i =
      let (same, entries) = unchanged cmp q w l l' first i in
      present cmp q w (node c l k v r) (node c l' k v r) _ h
        (ap (λ (u : Tree K V). node c u k v r) same)
        (rw (insert_entry_lt law q w (to_list l) k v (to_list r) e, entries))
  step_left (some (l', no_memory, first)) e i = absurd (ground (arith, i.reports))

  -- After the call on the right link.
  step_right :
      (o : Option (Tree K V × InsertRet × Option K))
      → cmp q k ≡ Ordering.gt
      → Returns o (Inserted cmp q w r)
      → Returns
          (o >>= λ (r', ret, first'). after_insert (node c l k v r') ret first')
          (Inserted cmp q w (node c l k v r))
  unfolding after_insert
  step_right none e i = i
  step_right (some (r', added, first)) e i =
      let below : rank k ≤ rank q = ground (arith, law.cmp_rank q k d here_in) in
      fixed cmp q w (node c l k v r) _ (to_list (node c l k v r')) (fix_insert (node c l k v r'))
        (fix_insert-Regrown_right c l k v r r' h i.grown) (fix_insert-Keeps (node c l k v r'))
        (rw (i.entries, insert_entry_ge law lo q w (to_list l) k v (to_list r) s d below)
          (ground (arith, e)))
        (ground (arith, i.reports, find_entry_ge law lo q (to_list l) k v (to_list r) s d below))
  step_right (some (r', exists, first)) e i =
      let below : rank k ≤ rank q = ground (arith, law.cmp_rank q k d here_in) in
      let (same, entries) = unchanged cmp q w r r' first i in
      present cmp q w (node c l k v r) (node c l k v r') _ h
        (ap (λ (u : Tree K V). node c l k v u) same)
        (rw (insert_entry_ge law lo q w (to_list l) k v (to_list r) s d below)
          (ground (arith, e, entries)))
  step_right (some (r', no_memory, first)) e i = absurd (ground (arith, i.reports))

  -- Where the key of the node is equal.
  step_here :
      (first : Option K)
      → cmp q k ≡ Ordering.eq
      → Inserted cmp q w (node c l k v r) (node c l k v r, exists, first)
  step_here first e =
      let below : rank k ≤ rank q = ground (arith, law.cmp_rank q k d here_in) in
      present cmp q w (node c l k v r) (node c l k v r) first h refl
        (rw (insert_entry_ge law lo q w (to_list l) k v (to_list r) s d below) (ground (arith, e)))

module _ {K V : Type 0} where
  IsAlmost-blacken : (t : Tree K V) → IsAlmost t → IsLlrb (blacken t)
  IsAlmost-blacken leaf h = tt
  IsAlmost-blacken (node c l k v r) h = h

  blacken_same : (t : Tree K V) → is_red t ≡ false → blacken t ≡ t
  blacken_same leaf h = refl
  blacken_same (node red l k v r) h = cc
  blacken_same (node black l k v r) h = refl

  to_list-blacken : (t : Tree K V) → to_list (blacken t) ≡ to_list t
  to_list-blacken leaf = refl
  to_list-blacken (node c l k v r) = refl

-- What holds of a map between two calls.
pub record IsValid {K V : Type 0} (D : K → Type 0) (rank : K → ℕ) (tm : Treemap K V) : Type 0 where
  pub shaped : IsLlrb tm.root
  pub rooted : is_red tm.root ≡ false
  pub sorted : SortedFrom D rank 0 (to_list tm.root)

-- What treemap_insert returns on a map: a valid map with the entry inserted, and the code.
pub record Inserts {K V : Type 0} (cmp : K → K → Ordering) (D : K → Type 0) (rank : K → ℕ) (q : K)
    (w : V) (tm : Treemap K V) (res : Treemap K V × InsertRet) : Type 0 where
  pub valid : IsValid D rank res.0
  pub entries : to_list res.0.root ≡ insert_entry cmp q w (to_list tm.root)
  pub reports :
      ((res.1 ≡ added)
        × (find_entry cmp q (to_list tm.root) ≡ none)
        × (res.0.node_cnt ≡ add32 tm.node_cnt 1))
      ⊎ ((res.1 ≡ exists) × (res.0.root ≡ tm.root) × (res.0.node_cnt ≡ tm.node_cnt))

module _ {K V : Type 0} {cmp : K → K → Ordering} {D : K → Type 0} {rank : K → ℕ}
    (law : IsRanked cmp D rank) where
  internal_inserts :
      (first : Option K) (t : Tree K V) (q : K) (w : V) (lo : ℕ)
      → IsLlrb t
      → SortedFrom D rank lo (to_list t)
      → D q
      → Returns (treemap_insert_internal cmp true first t q w) (Inserted cmp q w t)
  unfolding treemap_insert_internal
  internal_inserts first leaf q w lo h s d = ground arith
  internal_inserts first (node c l k v r) q w lo h s d =
      let (hl, hr) = IsLlrb-children c l k v r h in
      let (dk, _, sr) = SortedFrom-tail law lo (to_list l) k v (to_list r) s in
      let sl = SortedFrom-front law lo (to_list l) ((k, v) ∷ to_list r) s in
      let left = internal_inserts first l q w lo hl sl d in
      let right = internal_inserts first r q w (suc (rank k)) hr sr d in
      elim (Ordering-cases (cmp q k)) [
        | inl e ↦ rw (e, treemap_insert_internal) (step_left law q w c l k v r lo h s d _ e left)
        | inr (inl e) ↦
            rw (e, treemap_insert_internal) (step_here law q w c l k v r lo h s d first e)
        | inr (inr e) ↦
            rw (e, treemap_insert_internal) (step_right law q w c l k v r lo h s d _ e right)
      ]

  finish :
      (tm : Treemap K V) (q : K) (w : V) (o : Option (Tree K V × InsertRet × Option K))
      → IsValid D rank tm
      → D q
      → Returns o (Inserted cmp q w tm.root)
      → Returns
          (o >>= λ (t, ret, first).
            if is_leaf t
            then none
            else some (
              record { node_cnt = counted tm.node_cnt ret; root = blacken t; first = first },
              ret,
            ))
          (Inserts cmp D rank q w tm)
  finish tm q w none v d i = i
  finish tm q w (some (leaf, ret, first)) v d i =
      absurd (insert_entry-ne-nil law q w (to_list tm.root) (sym i.entries))
  finish tm q w (some (node c l k u r, added, first)) v d i = record {
    valid = record {
      shaped = IsAlmost-blacken (node c l k u r) i.grown.almost;
      rooted = refl;
      sorted =
          rw i.entries
            (insert_entry-SortedFrom law 0 q w (to_list tm.root) v.sorted d (omega arith));
    };
    entries = i.entries;
    reports = ground (arith, i.reports);
  }
  finish tm q w (some (node c l k u r, exists, first)) v d i =
      let (same, entries) = unchanged cmp q w tm.root (node c l k u r) first i in
      let root = blacken_same tm.root v.rooted in
      record {
        valid = record {
          shaped = IsAlmost-blacken (node c l k u r) i.grown.almost;
          rooted = refl;
          sorted = rw (i.entries, entries) v.sorted;
        };
        entries = i.entries;
        reports = inr (refl, ap blacken same ∙ root, refl);
      }
  finish tm q w (some (t, no_memory, first)) v d i = absurd (ground (arith, i.reports))

  -- On a valid map, with memory for one node, treemap_insert never reads through NULL. It returns 0
  -- where the key was absent, and then the entries in order are the old ones with the new one in its
  -- place and the count is one more; it returns 1 where the key was present, and then the tree and
  -- the count are as before. The shape of a left-leaning red-black tree is kept.
  pub treemap_insert-Inserts :
      (tm : Treemap K V) (q : K) (w : V)
      → IsValid D rank tm
      → D q
      → Returns (treemap_insert cmp true tm q w) (Inserts cmp D rank q w tm)
  unfolding treemap_insert
  treemap_insert-Inserts tm q w v d =
      finish tm q w _ v d (internal_inserts tm.first tm.root q w 0 v.shaped v.sorted d)

  -- The search of treemap_get finds exactly what the entries in order hold for the key.
  pub treemap_get-find_entry :
      (t : Tree K V) (q : K) (lo : ℕ)
      → SortedFrom D rank lo (to_list t)
      → D q
      → treemap_get cmp t q ≡ find_entry cmp q (to_list t)
  unfolding treemap_get
  treemap_get-find_entry leaf q lo s d = refl
  treemap_get-find_entry (node c l k v r) q lo s d =
      let (dk, _, sr) = SortedFrom-tail law lo (to_list l) k v (to_list r) s in
      let sl = SortedFrom-front law lo (to_list l) ((k, v) ∷ to_list r) s in
      ground (
        arith,
        law.cmp_rank q k d dk,
        treemap_get-find_entry l q lo sl d,
        treemap_get-find_entry r q (suc (rank k)) sr d,
        find_entry_lt law lo q (to_list l) k v (to_list r) s d,
        find_entry_ge law lo q (to_list l) k v (to_list r) s d,
      )
