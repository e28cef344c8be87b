-- ===== src/Hashqueue.antt =====
-- The queue with a hash index of common/hashqueue.c and common/hashqueue.h. Nodes are numbered: a
-- number is the address, and `key` and `value` are what is stored at it. A list is the numbers of its
-- nodes in order. Keys are the four bytes of a uint32_t, as all callers have them. Where the code calls
-- malloc, its result is an argument.
pub mod Pool
pub mod Index
pub mod Entries
pub mod Delete
pub mod Lookup
mod Examples
use liteflow.Base.{
  ℕ, ◌+◌, ◌-◌, ◌*◌, ◌%◌, ◌==◌, Bool, true, false, ltb, if◌then◌else◌, Option, none, some, List, [],
  ◌∷◌, ◌++◌, unlink, last_of,
}
use liteflow.Base.Word.{add32, sub32}

-- The nodes of a queue of fixed size: alloc_ptr is the number of the first node never used, and the
-- first of realloc_stack is on top.
pub record NodeMem : Type 0 where
  pub node_total : ℕ
  pub unalloc_node : ℕ
  pub realloc_stack : List ℕ
  pub alloc_ptr : ℕ

pub record HashQueue {ℓ} (V : Type ℓ) : Type ℓ where
  pub bucket_size : ℕ
  pub node_count : ℕ
  pub mem : Option NodeMem
  pub hash_fn : ℕ → ℕ
  pub hash : ℕ → List ℕ
  pub queue : List ℕ
  pub key : ℕ → ℕ
  pub value : ℕ → V

-- Both calls of malloc succeed; `key` and `value` are what memory holds before.
unfoldable pub queue_init {ℓ} : {V : Type ℓ} → ℕ → (ℕ → ℕ) → ℕ → (ℕ → ℕ) → (ℕ → V) → HashQueue V
queue_init bucket_size fn fixed_size key value = record {
  bucket_size = bucket_size;
  node_count = 0;
  mem =
      if ltb 0 fixed_size
      then some (record {
        node_total = fixed_size;
        unalloc_node = fixed_size;
        realloc_stack = [];
        alloc_ptr = 0;
      })
      else none;
  hash_fn = fn;
  hash = λ h. [];
  queue = [];
  key = key;
  value = value;
}

-- A write of one entry of an array.
abbrev pub set_at {ℓ} : {A : Type ℓ} → (ℕ → A) → ℕ → A → ℕ → A
set_at f i x j = if j == i then x else f j

-- hq->hash_fn(key, hq->key_size) % hq->bucket_size
unfoldable pub bucket_of {ℓ} : {V : Type ℓ} → HashQueue V → ℕ → ℕ
bucket_of hq k = hq.hash_fn k % hq.bucket_size

-- The node, and the pool after it. `fresh` is the result of malloc.
unfoldable pub node_alloc : Option NodeMem → Option ℕ → Option (ℕ × Option NodeMem)
node_alloc none fresh = elim fresh [ none ↦ none | some a ↦ some (a, none) ]
node_alloc (some mem) fresh = elim mem.realloc_stack [
  | a ∷ rest ↦ some (a, some (record mem { realloc_stack = rest }))
  | [] ↦
      if ltb 0 mem.unalloc_node
      then some (
        mem.alloc_ptr,
        some (record mem { alloc_ptr = mem.alloc_ptr + 1; unalloc_node = mem.unalloc_node - 1 }),
      )
      else none
]

unfoldable pub node_free : Option NodeMem → ℕ → Option NodeMem
node_free none a = none
node_free (some mem) a = some (record mem { realloc_stack = a ∷ mem.realloc_stack })

-- The two memcpy of a new node.
abbrev pub store {ℓ} : {V : Type ℓ} → HashQueue V → ℕ → ℕ → V → HashQueue V
store hq a k v = record hq { key = set_at hq.key a k; value = set_at hq.value a v }

-- What queue_prepend and queue_append do with the node `a`.
unfoldable pub prepend_node {ℓ} :
    {V : Type ℓ} → HashQueue V → ℕ → Option NodeMem → ℕ → V → HashQueue V
unfolding bucket_of
prepend_node hq a mem k v =
    let hv = bucket_of hq k in
    record (store hq a k v) {
      mem = mem;
      queue = a ∷ hq.queue;
      hash = set_at hq.hash hv (a ∷ hq.hash hv);
      node_count = add32 hq.node_count 1;
    }

unfoldable pub append_node {ℓ} :
    {V : Type ℓ} → HashQueue V → ℕ → Option NodeMem → ℕ → V → HashQueue V
unfolding bucket_of
append_node hq a mem k v =
    let hv = bucket_of hq k in
    record (store hq a k v) {
      mem = mem;
      queue = hq.queue ++ (a ∷ []);
      hash = set_at hq.hash hv (hq.hash hv ++ (a ∷ []));
      node_count = add32 hq.node_count 1;
    }

-- none is the return of -1.
unfoldable pub queue_prepend {ℓ} :
    {V : Type ℓ} → HashQueue V → Option ℕ → ℕ → V → Option (HashQueue V)
unfolding node_alloc prepend_node
queue_prepend hq fresh k v = elim (node_alloc hq.mem fresh) [
  | none ↦ none
  | some (a, mem) ↦ some (prepend_node hq a mem k v)
]

unfoldable pub queue_append {ℓ} :
    {V : Type ℓ} → HashQueue V → Option ℕ → ℕ → V → Option (HashQueue V)
unfolding node_alloc append_node
queue_append hq fresh k v = elim (node_alloc hq.mem fresh) [
  | none ↦ none
  | some (a, mem) ↦ some (append_node hq a mem k v)
]

-- The body of the loop of queue_del for the node `a` of bucket `hv`.
unfoldable pub del_node {ℓ} : {V : Type ℓ} → ℕ → ℕ → HashQueue V → HashQueue V
unfolding node_free
del_node hv a hq = record hq {
  hash = set_at hq.hash hv (unlink a (hq.hash hv));
  queue = unlink a hq.queue;
  node_count = sub32 hq.node_count 1;
  mem = node_free hq.mem a;
}

-- The loop of queue_del along the bucket; it reads the next node before it frees one.
unfoldable pub del_while {ℓ} : {V : Type ℓ} → ℕ → ℕ → List ℕ → HashQueue V → ℕ → HashQueue V × ℕ
unfolding del_node
del_while hv k [] hq del_num = (hq, del_num)
del_while hv k (a ∷ curr) hq del_num =
    if hq.key a == k
    then del_while hv k curr (del_node hv a hq) (del_num + 1)
    else del_while hv k curr hq del_num

unfoldable pub queue_del {ℓ} : {V : Type ℓ} → HashQueue V → ℕ → HashQueue V × ℕ
unfolding del_while bucket_of
queue_del hq k = let hv = bucket_of hq k in del_while hv k (hq.hash hv) hq 0

-- The loop of queue_clear, along the nodes of the queue.
unfoldable pub clear_while {ℓ} : {V : Type ℓ} → List ℕ → HashQueue V → HashQueue V
unfolding node_free bucket_of
clear_while [] hq = hq
clear_while (a ∷ rest) hq =
    let hv = bucket_of hq (hq.key a) in
    clear_while rest (record hq {
      hash = set_at hq.hash hv (unlink a (hq.hash hv));
      queue = unlink a hq.queue;
      mem = node_free hq.mem a;
    })

unfoldable pub queue_clear {ℓ} : {V : Type ℓ} → HashQueue V → HashQueue V
unfolding clear_while
queue_clear hq = record (clear_while hq.queue hq) { node_count = 0 }

unfoldable pub queue_first {ℓ} : {V : Type ℓ} → HashQueue V → Option ℕ
queue_first hq = elim hq.queue [ [] ↦ none | a ∷ rest ↦ some a ]

unfoldable pub queue_last {ℓ} : {V : Type ℓ} → HashQueue V → Option ℕ
queue_last hq = last_of hq.queue

-- The node behind `a` and the node before it in a list of nodes.
abbrev pub next_in : ℕ → List ℕ → Option ℕ
next_in a [] = none
next_in a (x ∷ []) = none
next_in a (x ∷ y ∷ xs) = let rest = next_in a (y ∷ xs) in if x == a then some y else rest

abbrev pub prev_in : ℕ → List ℕ → Option ℕ
prev_in a [] = none
prev_in a (x ∷ []) = none
prev_in a (x ∷ y ∷ xs) = let rest = prev_in a (y ∷ xs) in if y == a then some x else rest

unfoldable pub queue_next {ℓ} : {V : Type ℓ} → HashQueue V → ℕ → Option ℕ
queue_next hq curr = next_in curr hq.queue

unfoldable pub queue_prev {ℓ} : {V : Type ℓ} → HashQueue V → ℕ → Option ℕ
queue_prev hq curr = prev_in curr hq.queue
