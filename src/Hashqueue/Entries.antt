-- ===== src/Hashqueue/Entries.antt =====
-- The hash index of common/hashqueue.c is kept in step with the queue, and what the operations do to
-- the sequence of keys and values that a queue stands for.
use liteflow.Base.{
  ℕ, suc, ◌%◌, ◌≡◌, arith, refl, ap, ◌==◌, false, ◌&&◌, ◌||◌, Option, none, some, List, [], ◌∷◌,
  ◌++◌, has, Distinct, length,
}
use liteflow.Base.Word.{u32_mod}
use liteflow.Hashqueue.{
  HashQueue, NodeMem, set_at, bucket_of, node_alloc, append_node, prepend_node, queue_append,
  queue_prepend,
}

abbrev pub entries_of : {V : Type 0} → (ℕ → ℕ) → (ℕ → V) → List ℕ → List (ℕ × V)
entries_of key value [] = []
entries_of key value (a ∷ xs) = (key a, value a) ∷ entries_of key value xs

-- The keys and values in the order of the queue.
abbrev pub entries : {V : Type 0} → HashQueue V → List (ℕ × V)
entries hq = entries_of hq.key hq.value hq.queue

-- Each bucket holds exactly the nodes of the queue whose keys have its hash, each once, and the
-- nodes are counted.
pub record Linked {V : Type 0} (hq : HashQueue V) : Type 0 where
  pub indexed : (h a : ℕ) → has a (hq.hash h) ≡ (has a hq.queue && (bucket_of hq (hq.key a) == h))
  pub distinct : Distinct hq.queue
  pub distinct_bucket : (h : ℕ) → Distinct (hq.hash h)
  pub counted : hq.node_count ≡ length hq.queue % u32_mod

-- The node that is allocated next is in no list.
abbrev pub IsUnused : Option (ℕ × Option NodeMem) → List ℕ → Type 0
IsUnused none queue = Unit
IsUnused (some (a, mem)) queue = has a queue ≡ false

pub has-append : (a : ℕ) (xs ys : List ℕ) → has a (xs ++ ys) ≡ (has a xs || has a ys)
has-append a [] ys = refl
has-append a (x ∷ xs) ys = ground (arith, has-append a xs ys)

pub Distinct-append_one :
    (a : ℕ) (xs : List ℕ) → Distinct xs → has a xs ≡ false → Distinct (xs ++ (a ∷ []))
Distinct-append_one a [] d h = ground arith
Distinct-append_one a (x ∷ xs) d h =
    ground (arith, Distinct-append_one a xs, has-append x xs (a ∷ []))

length-append_one : (a : ℕ) (xs : List ℕ) → length (xs ++ (a ∷ [])) ≡ suc (length xs)
length-append_one a [] = refl
length-append_one a (x ∷ xs) = ground (arith, length-append_one a xs)

entries_of-store :
    {V : Type 0} (key : ℕ → ℕ) (value : ℕ → V) (a k : ℕ) (v : V) (xs : List ℕ)
    → has a xs ≡ false
    → entries_of (set_at key a k) (set_at value a v) xs ≡ entries_of key value xs
entries_of-store key value a k v [] h = refl
entries_of-store key value a k v (x ∷ xs) h = ground (arith, entries_of-store key value a k v xs)

entries_of-append :
    {V : Type 0} (key : ℕ → ℕ) (value : ℕ → V) (xs ys : List ℕ)
    → entries_of key value (xs ++ ys) ≡ entries_of key value xs ++ entries_of key value ys
entries_of-append key value [] ys = refl
entries_of-append key value (x ∷ xs) ys =
    ap (λ l. (key x, value x) ∷ l) (entries_of-append key value xs ys)

-- What an insertion returns: -1 only where there is no node, or else the index in step with the
-- queue and the entries `es`.
abbrev pub Stores :
    {V : Type 0} → Option (ℕ × Option NodeMem) → List (ℕ × V) → Option (HashQueue V) → Type 0
Stores alloc es none = alloc ≡ none
Stores alloc es (some hq) = Linked hq × (entries hq ≡ es)

append_node-Linked :
    {V : Type 0} (hq : HashQueue V) (a : ℕ) (mem : Option NodeMem) (k : ℕ) (v : V)
    → Linked hq
    → has a hq.queue ≡ false
    → Linked (append_node hq a mem k v)
unfolding append_node bucket_of
append_node-Linked hq a mem k v l u = record {
  indexed = λ h b. ground (
    arith,
    has-append b hq.queue (a ∷ []),
    has-append b (hq.hash h) (a ∷ []),
    l.indexed h b,
    l.indexed h a,
  );
  distinct = Distinct-append_one a hq.queue l.distinct u;
  distinct_bucket = λ h. ground (
    arith,
    Distinct-append_one a (hq.hash h) (l.distinct_bucket h),
    l.indexed h a,
    l.distinct_bucket h,
  );
  counted = omega (arith, length-append_one a hq.queue, l.counted);
}

append_node-entries :
    {V : Type 0} (hq : HashQueue V) (a : ℕ) (mem : Option NodeMem) (k : ℕ) (v : V)
    → has a hq.queue ≡ false
    → entries (append_node hq a mem k v) ≡ entries hq ++ ((k, v) ∷ [])
unfolding append_node
append_node-entries hq a mem k v u = ground (
  arith,
  entries_of-append (set_at hq.key a k) (set_at hq.value a v) hq.queue (a ∷ []),
  entries_of-store hq.key hq.value a k v hq.queue u,
)

prepend_node-Linked :
    {V : Type 0} (hq : HashQueue V) (a : ℕ) (mem : Option NodeMem) (k : ℕ) (v : V)
    → Linked hq
    → has a hq.queue ≡ false
    → Linked (prepend_node hq a mem k v)
      × (entries (prepend_node hq a mem k v) ≡ (k, v) ∷ entries hq)
unfolding prepend_node bucket_of
prepend_node-Linked hq a mem k v l u = (
  record {
    indexed = λ h b. ground (arith, l.indexed h b, l.indexed h a);
    distinct = (u, l.distinct);
    distinct_bucket = λ h. ground (arith, l.indexed h a, l.distinct_bucket h);
    counted = omega (arith, l.counted);
  },
  ground (arith, entries_of-store hq.key hq.value a k v hq.queue u),
)

Stores-append :
    {V : Type 0} (hq : HashQueue V) (k : ℕ) (v : V) (o : Option (ℕ × Option NodeMem))
    → Linked hq
    → IsUnused o hq.queue
    → Stores o
        (entries hq ++ ((k, v) ∷ []))
        (elim o [ none ↦ none | some (a, mem) ↦ some (append_node hq a mem k v) ])
Stores-append hq k v none l u = refl
Stores-append hq k v (some (a, mem)) l u =
    (append_node-Linked hq a mem k v l u, append_node-entries hq a mem k v u)

Stores-prepend :
    {V : Type 0} (hq : HashQueue V) (k : ℕ) (v : V) (o : Option (ℕ × Option NodeMem))
    → Linked hq
    → IsUnused o hq.queue
    → Stores o
        ((k, v) ∷ entries hq)
        (elim o [ none ↦ none | some (a, mem) ↦ some (prepend_node hq a mem k v) ])
Stores-prepend hq k v none l u = refl
Stores-prepend hq k v (some (a, mem)) l u = prepend_node-Linked hq a mem k v l u

-- Where the next node is unused, queue_append fails only where there is no node, and otherwise puts the
-- key and the value behind all others and keeps the index in step with the queue.
pub queue_append-Stores :
    {V : Type 0} (hq : HashQueue V) (fresh : Option ℕ) (k : ℕ) (v : V)
    → Linked hq
    → IsUnused (node_alloc hq.mem fresh) hq.queue
    → Stores (node_alloc hq.mem fresh) (entries hq ++ ((k, v) ∷ [])) (queue_append hq fresh k v)
unfolding queue_append
queue_append-Stores hq fresh k v l u = Stores-append hq k v (node_alloc hq.mem fresh) l u

-- The same of queue_prepend, which puts them before all others.
pub queue_prepend-Stores :
    {V : Type 0} (hq : HashQueue V) (fresh : Option ℕ) (k : ℕ) (v : V)
    → Linked hq
    → IsUnused (node_alloc hq.mem fresh) hq.queue
    → Stores (node_alloc hq.mem fresh) ((k, v) ∷ entries hq) (queue_prepend hq fresh k v)
unfolding queue_prepend
queue_prepend-Stores hq fresh k v l u = Stores-prepend hq k v (node_alloc hq.mem fresh) l u
