-- ===== src/Timerlist/Push.antt =====
-- What timerlist_push of common/timerlist.c leaves in the list: the entries, their nodes and the order.
use liteflow.Base.{
  ℕ, zero, suc, ◌+◌, ◌/◌, ◌^◌, ◌≤◌, ◌<◌, ◌≡◌, ◌≢◌, arith, Bool, true, false, ltb, leb, not, ◌&&◌,
  if◌then◌else◌, Option, none, some, [], ◌∷◌, ◌++◌, Bool-cases, inl, inr, refl, ◌∙◌, List,
}
use liteflow.Base.Word.{mul32, add32}
use liteflow.Treemap.Shape.{Returns}
use liteflow.Timerlist.{
  Timerlist, put, heap_swap, adjust_up, timerlist_push, bucket_of, grown_entries,
}
use liteflow.Timerlist.Order.{IsHeap, time_at, adjust_up-IsHeap, pushed}

module _ {K V : Type 0} where
  -- The node of every entry knows its place.
  pub record IsLinked (tq : Timerlist K V) : Type 0 where
    pub linked : (i : ℕ) → i < tq.node_count → (tq.nodes (tq.heap i).node).heap_id ≡ i

  -- The node `a` is in the list, with its time, its key and its value.
  pub record Holds (tq : Timerlist K V) (a t : ℕ) (key : K) (value : V) : Type 0 where
    pub below : (tq.nodes a).heap_id < tq.node_count
    pub entry : (tq.heap (tq.nodes a).heap_id).node ≡ a
    pub time : (tq.heap (tq.nodes a).heap_id).time ≡ t
    pub own_key : (tq.nodes a).key ≡ key
    pub own_value : (tq.nodes a).value ≡ value

  heap_swap-IsLinked :
      (tq : Timerlist K V) (a b : ℕ)
      → a < tq.node_count
      → b < tq.node_count
      → a ≢ b
      → IsLinked tq
      → IsLinked (heap_swap tq a b)
  unfolding heap_swap
  heap_swap-IsLinked tq a b ha hb n l = record {
    linked = λ i h. ground (arith, l.linked a ha, l.linked b hb, l.linked i h);
  }

  heap_swap-Holds :
      (tq : Timerlist K V) (a b x t : ℕ) (key : K) (value : V)
      → a < tq.node_count
      → b < tq.node_count
      → a ≢ b
      → IsLinked tq
      → Holds tq x t key value
      → Holds (heap_swap tq a b) x t key value
  unfolding heap_swap
  heap_swap-Holds tq a b x t key value ha hb n l h = record {
    below = ground (arith, l.linked a ha, l.linked b hb, h.below, h.entry);
    entry = ground (arith, l.linked a ha, l.linked b hb, h.below, h.entry);
    time = ground (arith, l.linked a ha, l.linked b hb, h.below, h.entry, h.time);
    own_key = ground (arith, h.own_key);
    own_value = ground (arith, h.own_value);
  }

  -- A step keeps the links and the entries.
  pub record Keeps (tq tq' : Timerlist K V) : Type 0 where
    pub links : IsLinked tq'
    pub holds : (x t : ℕ) (key : K) (value : V) → Holds tq x t key value → Holds tq' x t key value

  adjust_up-Keeps :
      (f : ℕ) (tq : Timerlist K V) (s : ℕ)
      → s < tq.node_count
      → IsLinked tq
      → Keeps tq (adjust_up f tq s)
  unfolding adjust_up heap_swap
  adjust_up-Keeps zero tq s k l = record { links = l; holds = λ x t key value h. h }
  adjust_up-Keeps (suc f) tq zero k l = record { links = l; holds = λ x t key value h. h }
  adjust_up-Keeps (suc f) tq (suc p) k l =
      let swapped = heap_swap tq (suc p) (p / 2) in
      let rest =
        adjust_up-Keeps f swapped (p / 2) (omega arith)
          (heap_swap-IsLinked tq (suc p) (p / 2) k (omega arith) (omega arith) l) in
      elim (Bool-cases (ltb (time_at tq (suc p)) (time_at tq (p / 2)))) [
        | inl e ↦
            rw (e, if◌then◌else◌)
              (record {
                links = rest.links;
                holds = λ x t key value h. rest.holds x t key value (
                    heap_swap-Holds tq (suc p) (p / 2) x t key value k (omega arith) (omega arith) l
                      h);
              })
        | inr e ↦ rw (e, if◌then◌else◌) (record { links = l; holds = λ x t key value h. h })
      ]

  -- The entries fit into the heap, whose size does not wrap round when it grows.
  pub record IsSized (tq : Timerlist K V) : Type 0 where
    pub fits : tq.node_count ≤ tq.node_capacity
    pub some_room : 0 < tq.node_capacity
    pub small : tq.node_capacity < 2 ^ 27

  -- What timerlist_push returns.
  abbrev pub Pushes : Option ℕ → Timerlist K V → ℕ → K → V → Timerlist K V × Bool → Type 0
  Pushes alloc tq time key value (tq', false) =
      IsHeap tq'
      × (tq'.node_count ≡ tq.node_count)
      × (tq'.heap ≡ tq.heap)
      × (tq'.nodes ≡ tq.nodes)
      × (tq'.hash ≡ tq.hash)
  Pushes none tq time key value (tq', true) = ⊥
  Pushes (some fresh) tq time key value (tq', true) =
      IsHeap tq'
      × (tq'.node_count ≡ tq.node_count + 1)
      × Keeps tq tq'
      × Holds tq' fresh time key value

  -- The list before adjust_up, with the new entry at the end.
  abbrev appended : Timerlist K V → ℕ → ℕ → (ℕ → List ℕ) → ℕ → ℕ → K → V → Timerlist K V
  appended tq count capacity hash fresh time key value = record tq {
    node_capacity = capacity;
    node_count = count;
    hash = hash;
    heap = put tq.node_count (record { time = time; node = fresh }) tq.heap;
    nodes = put fresh (record { heap_id = tq.node_count; key = key; value = value }) tq.nodes;
  }

  -- The address of a new node is not that of a node in the list.
  abbrev pub IsFresh : Timerlist K V → Option ℕ → Type 0
  IsFresh tq none = Unit
  IsFresh tq (some fresh) = (i : ℕ) → i < tq.node_count → (tq.heap i).node ≢ fresh

  appended-Keeps :
      (tq : Timerlist K V) (count capacity : ℕ) (hash : ℕ → List ℕ) (fresh time : ℕ) (key : K)
      (value : V)
      → count ≡ tq.node_count + 1
      → IsFresh tq (some fresh)
      → IsLinked tq
      → let tq' = appended tq count capacity hash fresh time key value in
        Keeps tq tq' × Holds tq' fresh time key value
  appended-Keeps tq count capacity hash fresh time key value c new l = (
    record {
      links = record { linked = λ i k. ground (arith, l.linked i, new i, c) };
      holds = λ x t key value h.
          let other : x ≢ fresh = λ e. new (tq.nodes x).heap_id h.below (h.entry ∙ e) in
          record {
            below = ground (arith, h.below, other, c);
            entry = ground (arith, h.below, h.entry, other);
            time = ground (arith, h.below, h.time, other);
            own_key = ground (arith, h.own_key, other);
            own_value = ground (arith, h.own_value, other);
          };
    },
    record {
      below = ground (arith, c);
      entry = ground arith;
      time = ground arith;
      own_key = ground arith;
      own_value = ground arith;
    },
  )

module _ {K V : Type 0} (hash_fn : K → ℕ) (same : K → K → Bool) where
  Pushes-if :
      (b : Bool) (alloc : Option ℕ) (tq : Timerlist K V) (time : ℕ) (key : K) (value : V)
      (x y : Option (Timerlist K V × Bool))
      → (b ≡ true → Returns x (Pushes alloc tq time key value))
      → (b ≡ false → Returns y (Pushes alloc tq time key value))
      → Returns (if b then x else y) (Pushes alloc tq time key value)
  Pushes-if true alloc tq time key value x y p q = p refl
  Pushes-if false alloc tq time key value x y p q = q refl

  -- For a heap whose nodes know their places and whose size in bytes does not wrap round, and a new
  -- address, timerlist_push never writes outside of the heap, on every outcome of its allocations. Where
  -- it succeeds, the list is a heap with one more entry, its nodes know their places, the new node is in
  -- it with its time, key and value, and every node that was in the list still is, with its own. Where it
  -- fails, entries, nodes and chains are as they were.
  pub timerlist_push-Pushes :
      (grown : Bool) (alloc : Option ℕ) (tq : Timerlist K V) (time : ℕ) (key : K) (value : V)
      → IsHeap tq
      → IsLinked tq
      → IsSized tq
      → IsFresh tq alloc
      → Returns
          (timerlist_push hash_fn same grown alloc tq time key value)
          (Pushes alloc tq time key value)
  unfolding timerlist_push
  timerlist_push-Pushes grown none tq time key value h l z new =
      let full = leb tq.node_capacity tq.node_count in
      let capacity = if full then mul32 tq.node_capacity 2 else tq.node_capacity in
      let wide : Timerlist K V = record tq { node_capacity = capacity } in
      let refused : Pushes none tq time key value (tq, false) = (h, refl, refl, refl, refl) in
      let heap : IsHeap wide = record { ordered = h.ordered } in
      let widened : Pushes none tq time key value (wide, false) = (heap, refl, refl, refl, refl) in
      Pushes-if (full && not grown) none tq time key value (some (tq, false)) (some (wide, false))
        (λ e. refused) (λ e. widened)
  timerlist_push-Pushes grown (some fresh) tq time key value h l z new =
      let n = tq.node_count in
      let hv = bucket_of hash_fn same tq key in
      let full = leb tq.node_capacity n in
      let capacity = if full then mul32 tq.node_capacity 2 else tq.node_capacity in
      let hash = put hv (tq.hash hv ++ (fresh ∷ [])) tq.hash in
      let tq' : Timerlist K V = appended tq (add32 n 1) capacity hash fresh time key value in
      let one : add32 n 1 ≡ n + 1 = ground (arith, z.fits, z.small) in
      let (keeps, new_entry) =
        appended-Keeps tq (add32 n 1) capacity hash fresh time key value one new l in
      let sorted =
        adjust_up-IsHeap n tq' n (omega arith) (omega arith)
          (pushed tq tq' (record { time = time; node = fresh }) one (λ i. refl) h) in
      let moved = adjust_up-Keeps n tq' n (omega arith) keeps.links in
      let all : Keeps tq (adjust_up n tq' n) = record {
        links = moved.links;
        holds = λ x t k v p. moved.holds x t k v (keeps.holds x t k v p);
      } in
      let refused : Pushes (some fresh) tq time key value (tq, false) =
        (h, refl, refl, refl, refl) in
      let done : Pushes (some fresh) tq time key value (adjust_up n tq' n, true) =
        (sorted.0, sorted.1 ∙ one, all, moved.holds fresh time key value new_entry) in
      let outside = full && leb (grown_entries capacity) n in
      let stored : Option (Timerlist K V × Bool) = some (adjust_up n tq' n, true) in
      Pushes-if (full && not grown) (some fresh) tq time key value (some (tq, false))
        (if outside then none else stored) (λ e. refused)
        (λ e.
          Pushes-if outside (some fresh) tq time key value none stored
            (λ o. absurd (room full n tq.node_capacity z.fits z.some_room z.small refl o))
            (λ o. done))
    where
      room :
          (full : Bool) (n capacity : ℕ)
          → n ≤ capacity
          → 0 < capacity
          → capacity < 2 ^ 27
          → full ≡ leb capacity n
          → (full && leb (grown_entries (if full then mul32 capacity 2 else capacity)) n) ≡ true
          → ⊥
      room full n capacity f p s e o = ground arith
