-- ===== src/Hashqueue/Lookup.antt =====
-- queue_get of common/hashqueue.c agrees with a search along the whole queue.
use liteflow.Base.{
  ℕ, ◌≡◌, ◌≢◌, arith, refl, sym, ap, ◌∙◌, ◌==◌, true, false, if◌then◌else◌, Bool-cases, inl, inr,
  Option, none, some, List, [], ◌∷◌, ◌++◌, has,
}
use liteflow.Hashqueue.{HashQueue, NodeMem, bucket_of, node_alloc, queue_append}
use liteflow.Hashqueue.Index.{find_node, queue_get, entry_at}
use liteflow.Hashqueue.Entries.{Linked, entries, entries_of, IsUnused, Stores, queue_append-Stores}

-- The first entry with the key.
abbrev pub find_key : {V : Type 0} → ℕ → List (ℕ × V) → Option (ℕ × V)
find_key k [] = none
find_key k ((j, v) ∷ xs) = let rest = find_key k xs in if j == k then some (j, v) else rest

-- No key occurs twice.
abbrev pub UniqueKeys : {V : Type 0} → List (ℕ × V) → Type 0
UniqueKeys [] = Unit
UniqueKeys ((k, v) ∷ xs) = (find_key k xs ≡ none) × UniqueKeys xs

-- `o` is the node of the list with the key, or the list has none.
IsFound : {V : Type 0} → HashQueue V → ℕ → List ℕ → Option ℕ → Type 0
IsFound hq k xs none = (a : ℕ) → has a xs ≡ true → (hq.key a == k) ≡ false
IsFound hq k xs (some a) = (has a xs ≡ true) × ((hq.key a == k) ≡ true)

find_node-IsFound :
    {V : Type 0} (hq : HashQueue V) (k : ℕ) (xs : List ℕ) → IsFound hq k xs (find_node hq k xs)
unfolding find_node IsFound
find_node-IsFound hq k [] = λ a h. ground arith
find_node-IsFound hq k (x ∷ xs) = elim (Bool-cases (hq.key x == k)) [
  | inl e ↦ rw (e, if◌then◌else◌) (ground arith, e)
  | inr e ↦ rw (e, if◌then◌else◌) (later (find_node hq k xs) (find_node-IsFound hq k xs) e)
]
  where
    later : (o : Option ℕ) → IsFound hq k xs o → (hq.key x == k) ≡ false → IsFound hq k (x ∷ xs) o
    later none f e = λ a h. ground (arith, f a)
    later (some a) f e = ground arith

find_key-none :
    {V : Type 0} (key : ℕ → ℕ) (value : ℕ → V) (k : ℕ) (xs : List ℕ)
    → ((a : ℕ) → has a xs ≡ true → (key a == k) ≡ false)
    → find_key k (entries_of key value xs) ≡ none
find_key-none key value k [] h = refl
find_key-none key value k (x ∷ xs) h =
    rw (h x (ground arith), if◌then◌else◌)
      (find_key-none key value k xs (λ a e. h a (ground arith)))

absent :
    {V : Type 0} (key : ℕ → ℕ) (value : ℕ → V) (k a : ℕ) (xs : List ℕ)
    → find_key k (entries_of key value xs) ≡ none
    → has a xs ≡ true
    → (key a == k) ≡ false
absent key value k a [] n h = ground arith
absent key value k a (x ∷ xs) n h = ground (arith, absent key value k a xs)

find_key_here :
    {V : Type 0} (key : ℕ → ℕ) (value : ℕ → V) (k a : ℕ) (xs : List ℕ)
    → UniqueKeys (entries_of key value xs)
    → has a xs ≡ true
    → (key a == k) ≡ true
    → find_key k (entries_of key value xs) ≡ some (key a, value a)
find_key_here key value k a [] u h e = ground arith
find_key_here key value k a (x ∷ xs) u h e =
    ground (arith, find_key_here key value k a xs, absent key value (key x) a xs)

-- On a queue with its index in step and no key twice, the bucket search of queue_get gives the entry that
-- a search along the queue would give, and nothing exactly where that finds nothing.
pub queue_get-find_key :
    {V : Type 0} (hq : HashQueue V) (k : ℕ)
    → Linked hq
    → UniqueKeys (entries hq)
    → entry_at hq (queue_get hq k) ≡ find_key k (entries hq)
unfolding queue_get entry_at IsFound bucket_of
queue_get-find_key hq k l u = agree _ (find_node-IsFound hq k (hq.hash (bucket_of hq k)))
  where
    agree :
        (o : Option ℕ)
        → IsFound hq k (hq.hash (bucket_of hq k)) o
        → entry_at hq o ≡ find_key k (entries hq)
    agree none f = sym (
        find_key-none hq.key hq.value k hq.queue
          (λ a h. ground (arith, f a, l.indexed (bucket_of hq k) a)))
    agree (some a) f = sym (
        find_key_here hq.key hq.value k a hq.queue u (ground (arith, l.indexed (bucket_of hq k) a))
          f.1)

find_key-append :
    {V : Type 0} (k j : ℕ) (v : V) (xs : List (ℕ × V))
    → find_key k xs ≡ none
    → find_key j (xs ++ ((k, v) ∷ [])) ≡ (if j == k then some (k, v) else find_key j xs)
find_key-append k j v [] n = ground arith
find_key-append k j v (x ∷ xs) n = ground (arith, find_key-append k j v xs)

UniqueKeys-append :
    {V : Type 0} (k : ℕ) (v : V) (xs : List (ℕ × V))
    → find_key k xs ≡ none
    → UniqueKeys xs
    → UniqueKeys (xs ++ ((k, v) ∷ []))
UniqueKeys-append k v [] n u = ground arith
UniqueKeys-append k v (x ∷ xs) n u =
    ground (arith, UniqueKeys-append k v xs, find_key-append k x.0 v xs)

-- What can be got from a queue after an append.
pub record Gets {V : Type 0} (hq : HashQueue V) (k : ℕ) (v : V) (hq' : HashQueue V) : Type 0 where
  pub appended : entry_at hq' (queue_get hq' k) ≡ some (k, v)
  pub others : (j : ℕ) → j ≢ k → entry_at hq' (queue_get hq' j) ≡ entry_at hq (queue_get hq j)

Gets-stored :
    {V : Type 0} (hq : HashQueue V) (k : ℕ) (v : V) (hq' : HashQueue V)
    → Linked hq
    → UniqueKeys (entries hq)
    → find_key k (entries hq) ≡ none
    → Linked hq'
    → entries hq' ≡ entries hq ++ ((k, v) ∷ [])
    → Gets hq k v hq'
Gets-stored hq k v hq' l u n l' e =
    let u' : UniqueKeys (entries hq') = rw e (UniqueKeys-append k v (entries hq) n u) in
    record {
      appended =
          queue_get-find_key hq' k l' u'
          ∙ ap (find_key k) e
          ∙ ground (arith, find_key-append k k v (entries hq) n);
      others = λ j d.
          queue_get-find_key hq' j l' u'
          ∙ ap (find_key j) e
          ∙ ground (arith, find_key-append k j v (entries hq) n, queue_get-find_key hq j l u);
    }

-- What an append that may fail for lack of a node gives.
abbrev pub GetsUnlessFull :
    {V : Type 0} → Option (ℕ × Option NodeMem) → HashQueue V → ℕ → V → Option (HashQueue V) → Type 0
GetsUnlessFull alloc hq k v none = alloc ≡ none
GetsUnlessFull alloc hq k v (some hq') = Gets hq k v hq'

-- On a queue with its index in step, no key twice and none equal to `k`, an append of `k` fails only where
-- there is no node; afterwards queue_get gives the value that was appended, and for every other key what
-- it gave before.
pub queue_append-GetsUnlessFull :
    {V : Type 0} (hq : HashQueue V) (fresh : Option ℕ) (k : ℕ) (v : V)
    → Linked hq
    → UniqueKeys (entries hq)
    → IsUnused (node_alloc hq.mem fresh) hq.queue
    → find_key k (entries hq) ≡ none
    → GetsUnlessFull (node_alloc hq.mem fresh) hq k v (queue_append hq fresh k v)
queue_append-GetsUnlessFull hq fresh k v l u i n =
    relate (queue_append hq fresh k v) (queue_append-Stores hq fresh k v l i)
  where
    relate :
        (o : Option (HashQueue _))
        → Stores (node_alloc hq.mem fresh) (entries hq ++ ((k, v) ∷ [])) o
        → GetsUnlessFull (node_alloc hq.mem fresh) hq k v o
    relate none s = s
    relate (some hq') s = Gets-stored hq k v hq' l u n s.0 s.1
