-- ===== src/Hashqueue/Delete.antt =====
-- queue_del of common/hashqueue.c removes every entry with the key, and queue_get finds a key.
use liteflow.Base.{
  ℕ, suc, ◌+◌, ◌%◌, ◌≡◌, arith, refl, sym, ap, ◌∙◌, ◌==◌, Bool, true, false, not, ◌&&◌,
  if◌then◌else◌, Bool-cases, inl, inr, List, [], ◌∷◌, unlink, has, Distinct, length,
}
use liteflow.Hashqueue.{HashQueue, bucket_of, del_node, del_while, queue_del}
use liteflow.Hashqueue.Entries.{Linked, entries, entries_of}

-- The unlinking of one node.
pub has-unlink :
    (a b : ℕ) (xs : List ℕ) → Distinct xs → has b (unlink a xs) ≡ (has b xs && not (b == a))
has-unlink a b [] d = refl
has-unlink a b (x ∷ xs) d = ground (arith, has-unlink a b xs)

Distinct-unlink : (a : ℕ) (xs : List ℕ) → Distinct xs → Distinct (unlink a xs)
Distinct-unlink a [] d = d
Distinct-unlink a (x ∷ xs) d = ground (arith, Distinct-unlink a xs, has-unlink a x xs)

pub length-unlink : (a : ℕ) (xs : List ℕ) → has a xs ≡ true → length xs ≡ suc (length (unlink a xs))
length-unlink a [] h = ground arith
length-unlink a (x ∷ xs) h = ground (arith, length-unlink a xs)

del_node-Linked :
    {V : Type 0} (hq : HashQueue V) (hv a : ℕ)
    → Linked hq
    → has a (hq.hash hv) ≡ true
    → Linked (del_node hv a hq)
unfolding del_node bucket_of
del_node-Linked hq hv a l h = record {
  indexed = λ i b. ground (
    arith,
    has-unlink a b hq.queue l.distinct,
    has-unlink a b (hq.hash hv) (l.distinct_bucket hv),
    l.indexed i b,
    l.indexed hv a,
  );
  distinct = Distinct-unlink a hq.queue l.distinct;
  distinct_bucket = λ i.
      ground (arith, Distinct-unlink a (hq.hash hv) (l.distinct_bucket hv), l.distinct_bucket i);
  counted = ground (arith, length-unlink a hq.queue, l.counted, l.indexed hv a);
}

-- The elements that pass the test.
abbrev keep : (ℕ → Bool) → List ℕ → List ℕ
keep p [] = []
keep p (x ∷ xs) = let rest = keep p xs in if p x then (x ∷ rest) else rest

-- The entries with other keys.
abbrev pub drop_key : {V : Type 0} → ℕ → List (ℕ × V) → List (ℕ × V)
drop_key k [] = []
drop_key k ((j, v) ∷ xs) = let rest = drop_key k xs in if j == k then rest else ((j, v) ∷ rest)

keep-absent :
    (a : ℕ) (p r : ℕ → Bool) (xs : List ℕ)
    → ((b : ℕ) → r b ≡ (p b && not (b == a)))
    → has a xs ≡ false
    → keep p xs ≡ keep r xs
keep-absent a p r [] h n = refl
keep-absent a p r (x ∷ xs) h n = ground (arith, keep-absent a p r xs, h x)

keep-ext :
    (p r : ℕ → Bool) (xs : List ℕ) → ((b : ℕ) → has b xs ≡ true → p b ≡ r b) → keep p xs ≡ keep r xs
keep-ext p r [] h = refl
keep-ext p r (x ∷ xs) h = ground (arith, keep-ext p r xs, h x)

keep-unlink :
    (a : ℕ) (p r : ℕ → Bool) (xs : List ℕ)
    → Distinct xs
    → ((b : ℕ) → r b ≡ (p b && not (b == a)))
    → keep p (unlink a xs) ≡ keep r xs
keep-unlink a p r [] d h = refl
keep-unlink a p r (x ∷ xs) d h = ground (arith, keep-unlink a p r xs, keep-absent a p r xs, h x)

keep_all : (p : ℕ → Bool) (xs : List ℕ) → ((b : ℕ) → p b ≡ true) → keep p xs ≡ xs
keep_all p [] h = refl
keep_all p (x ∷ xs) h = ground (arith, keep_all p xs, h x)

keep-drop_key :
    {V : Type 0} (key : ℕ → ℕ) (value : ℕ → V) (k : ℕ) (p : ℕ → Bool) (xs : List ℕ)
    → ((b : ℕ) → has b xs ≡ true → p b ≡ not (key b == k))
    → entries_of key value (keep p xs) ≡ drop_key k (entries_of key value xs)
keep-drop_key key value k p [] h = refl
keep-drop_key key value k p (x ∷ xs) h = ground (arith, keep-drop_key key value k p xs, h x)

-- What the loop of queue_del has done once it has gone along the nodes `l`.
record Removed {V : Type 0} (k : ℕ) (l : List ℕ) (n : ℕ) (hq : HashQueue V) (r : HashQueue V × ℕ)
    : Type 0 where
  pub linked : Linked r.0
  pub keys : r.0.key ≡ hq.key
  pub values : r.0.value ≡ hq.value
  pub kept : r.0.queue ≡ keep (λ b. not (has b l && hq.key b == k)) hq.queue
  pub number : r.1 + length r.0.queue ≡ n + length hq.queue

passes :
    {V : Type 0} (k a n : ℕ) (l : List ℕ) (hq : HashQueue V) (r : HashQueue V × ℕ)
    → (hq.key a == k) ≡ false
    → Removed k l n hq r
    → Removed k (a ∷ l) n hq r
passes k a n l hq r e m = record {
  linked = m.linked;
  keys = m.keys;
  values = m.values;
  kept = m.kept ∙ keep-ext _ _ hq.queue (λ b h. ground arith);
  number = m.number;
}

removes :
    {V : Type 0} (hv k a n : ℕ) (l : List ℕ) (hq : HashQueue V) (r : HashQueue V × ℕ)
    → (hq.key a == k) ≡ true
    → Linked hq
    → has a (hq.hash hv) ≡ true
    → has a l ≡ false
    → Removed k l (n + 1) (del_node hv a hq) r
    → Removed k (a ∷ l) n hq r
unfolding del_node
removes hv k a n l hq r e li h d m = record {
  linked = m.linked;
  keys = m.keys;
  values = m.values;
  kept = m.kept ∙ keep-unlink a _ _ hq.queue li.distinct (λ b. ground arith);
  number = ground (arith, m.number, length-unlink a hq.queue, li.indexed hv a);
}

del_while-Removed :
    {V : Type 0} (hv k : ℕ) (l : List ℕ) (hq : HashQueue V) (n : ℕ)
    → Distinct l
    → ((b : ℕ) → has b l ≡ true → has b (hq.hash hv) ≡ true)
    → Linked hq
    → Removed k l n hq (del_while hv k l hq n)
unfolding del_while del_node
del_while-Removed hv k [] hq n d s l = record {
  linked = l;
  keys = refl;
  values = refl;
  kept = sym (keep_all (λ b. true) hq.queue (λ b. refl));
  number = refl;
}
del_while-Removed hv k (a ∷ l) hq n d s li = elim (Bool-cases (hq.key a == k)) [
  | inl e ↦
      rw (e, if◌then◌else◌)
        (removes hv k a n l hq _ e li (s a (ground arith)) d.0 (
          del_while-Removed hv k l (del_node hv a hq) (n + 1) d.1
            (λ b h. ground (arith, has-unlink a b (hq.hash hv) (li.distinct_bucket hv), s b))
            (del_node-Linked hq hv a li (s a (ground arith)))))
  | inr e ↦
      rw (e, if◌then◌else◌)
        (passes k a n l hq _ e (del_while-Removed hv k l hq n d.1 (λ b h. s b (ground arith)) li))
]

-- What queue_del leaves: the entries with other keys, in their order, and the number of the others.
pub record Deleted {V : Type 0} (k : ℕ) (hq : HashQueue V) (r : HashQueue V × ℕ) : Type 0 where
  pub linked : Linked r.0
  pub left : entries r.0 ≡ drop_key k (entries hq)
  pub number : r.1 + length (entries r.0) ≡ length (entries hq)

length-entries_of :
    {V : Type 0} (key : ℕ → ℕ) (value : ℕ → V) (xs : List ℕ)
    → length (entries_of key value xs) ≡ length xs
length-entries_of key value [] = refl
length-entries_of key value (x ∷ xs) = ap suc (length-entries_of key value xs)

-- On a queue with its index in step, queue_del removes exactly the entries with the key, keeps the order
-- of the others and the index in step, and returns how many it removed.
pub queue_del-Deleted :
    {V : Type 0} (hq : HashQueue V) (k : ℕ) → Linked hq → Deleted k hq (queue_del hq k)
unfolding queue_del bucket_of
queue_del-Deleted hq k l =
    let hv = bucket_of hq k in
    let m = del_while-Removed hv k (hq.hash hv) hq 0 (l.distinct_bucket hv) (λ b h. h) l in
    record {
      linked = m.linked;
      left =
          rw (m.keys, m.values, m.kept)
            (keep-drop_key hq.key hq.value k _ hq.queue
              (λ b h. ground (arith, l.indexed (hq.hash_fn k % hq.bucket_size) b)));
      number = omega (
        arith,
        m.number,
        length-entries_of (queue_del hq k).0.key (queue_del hq k).0.value (queue_del hq k).0.queue,
        length-entries_of hq.key hq.value hq.queue,
      );
    }
