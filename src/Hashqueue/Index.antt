-- ===== src/Hashqueue/Index.antt =====
-- The operations of common/hashqueue.c that search a key or move nodes.
use liteflow.Base.{
  ℕ, ◌==◌, Bool, true, false, if◌then◌else◌, Option, none, some, List, [], ◌∷◌, ◌++◌, unlink,
}
use liteflow.Hashqueue.{HashQueue, bucket_of, queue_first, queue_last}

unfoldable pub queue_key {ℓ} : {V : Type ℓ} → HashQueue V → ℕ → ℕ
queue_key hq node = hq.key node

unfoldable pub queue_value {ℓ} : {V : Type ℓ} → HashQueue V → ℕ → V
queue_value hq node = hq.value node

-- The first node of the list with the key.
unfoldable pub find_node {ℓ} : {V : Type ℓ} → HashQueue V → ℕ → List ℕ → Option ℕ
find_node hq k [] = none
find_node hq k (a ∷ curr) = let rest = find_node hq k curr in if hq.key a == k then some a else rest

-- The node whose data queue_get returns.
unfoldable pub queue_get {ℓ} : {V : Type ℓ} → HashQueue V → ℕ → Option ℕ
unfolding bucket_of find_node
queue_get hq k = find_node hq k (hq.hash (bucket_of hq k))

-- The key and the value of a node, where there is one.
unfoldable pub entry_at {ℓ} : {V : Type ℓ} → HashQueue V → Option ℕ → Option (ℕ × V)
entry_at hq none = none
entry_at hq (some a) = some (hq.key a, hq.value a)

unfoldable pub queue_front {ℓ} : {V : Type ℓ} → HashQueue V → Option (ℕ × V)
unfolding queue_first entry_at
queue_front hq = entry_at hq (queue_first hq)

unfoldable pub queue_back {ℓ} : {V : Type ℓ} → HashQueue V → Option (ℕ × V)
unfolding queue_last entry_at
queue_back hq = entry_at hq (queue_last hq)

-- The loops of queue_move_front and queue_move_back along the bucket.
unfoldable pub move_front_while {ℓ} : {V : Type ℓ} → HashQueue V → ℕ → List ℕ → List ℕ → List ℕ
move_front_while hq k [] queue = queue
move_front_while hq k (a ∷ curr) queue =
    move_front_while hq k curr (if hq.key a == k then (a ∷ unlink a queue) else queue)

unfoldable pub move_back_while {ℓ} : {V : Type ℓ} → HashQueue V → ℕ → List ℕ → List ℕ → List ℕ
move_back_while hq k [] queue = queue
move_back_while hq k (a ∷ curr) queue =
    move_back_while hq k curr (if hq.key a == k then (unlink a queue ++ (a ∷ [])) else queue)

unfoldable pub queue_move_front {ℓ} : {V : Type ℓ} → HashQueue V → ℕ → HashQueue V
unfolding bucket_of move_front_while
queue_move_front hq k = record hq {
  queue = move_front_while hq k (hq.hash (bucket_of hq k)) hq.queue;
}

unfoldable pub queue_move_back {ℓ} : {V : Type ℓ} → HashQueue V → ℕ → HashQueue V
unfolding bucket_of move_back_while
queue_move_back hq k = record hq {
  queue = move_back_while hq k (hq.hash (bucket_of hq k)) hq.queue;
}

-- `a` put behind the node `dst`.
abbrev pub put_behind : ℕ → ℕ → List ℕ → List ℕ
put_behind a dst [] = []
put_behind a dst (x ∷ xs) =
    let rest = put_behind a dst xs in if x == dst then (x ∷ a ∷ xs) else (x ∷ rest)

unfoldable pub queue_move_to {ℓ} : {V : Type ℓ} → HashQueue V → ℕ → ℕ → HashQueue V
queue_move_to hq src dst = record hq { queue = put_behind src dst (unlink src hq.queue) }

unfoldable pub queue_empty {ℓ} : {V : Type ℓ} → HashQueue V → Bool
queue_empty hq = elim hq.queue [ [] ↦ true | a ∷ rest ↦ false ]

unfoldable pub queue_size {ℓ} : {V : Type ℓ} → HashQueue V → ℕ
queue_size hq = hq.node_count
