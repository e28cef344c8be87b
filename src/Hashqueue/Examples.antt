-- ===== src/Hashqueue/Examples.antt =====
-- A queue of fixed size 3 with two entries in the same bucket.
use liteflow.Base.{ℕ, ◌+◌, ◌≡◌, arith, refl, ◌==◌, if◌then◌else◌, none, some, [], ◌∷◌}
use liteflow.Hashqueue.{bucket_of, HashQueue, NodeMem, node_alloc, queue_append, queue_del}
use liteflow.Hashqueue.Index.{queue_get, entry_at}
use liteflow.Hashqueue.Entries.{Linked, entries}
use liteflow.Hashqueue.Delete.{Deleted, queue_del-Deleted}
use liteflow.Hashqueue.Lookup.{
  GetsUnlessFull, find_key, queue_get-find_key, queue_append-GetsUnlessFull,
}
use liteflow.Hashqueue.Pool.{Pooled, Allocates, node_alloc-Allocates}

-- Node 1 was given back; nodes 0 and 2 are in the queue.
abbrev pool : NodeMem
pool = record { node_total = 3; unalloc_node = 0; realloc_stack = 1 ∷ []; alloc_ptr = 3 }

abbrev two_flows : HashQueue ℕ
two_flows = record {
  bucket_size = 1013;
  node_count = 2;
  mem = some pool;
  hash_fn = λ k. k;
  hash = λ h. if h == 7 then (2 ∷ 0 ∷ []) else [];
  queue = 0 ∷ 2 ∷ [];
  key = λ a. if a == 0 then 7 else 1020;
  value = λ a. a + 500;
}

two_flows-Linked : Linked two_flows
unfolding bucket_of
two_flows-Linked = record {
  indexed = λ h a. ground arith;
  distinct = ground arith;
  distinct_bucket = λ h. ground arith;
  counted = refl;
}

pool-Pooled : Pooled pool two_flows.queue
pool-Pooled = record {
  disjoint = λ a h. ground arith;
  distinct = ground arith;
  below = λ a h. ground arith;
  below_stack = λ a h. ground arith;
  used = refl;
  total = refl;
}

queue_del-Deleted_example : Deleted 1020 two_flows (queue_del two_flows 1020)
queue_del-Deleted_example = queue_del-Deleted two_flows 1020 two_flows-Linked

queue_get-find_key_example :
    entry_at two_flows (queue_get two_flows 1020) ≡ find_key 1020 (entries two_flows)
queue_get-find_key_example = queue_get-find_key two_flows 1020 two_flows-Linked (refl, (refl, tt))

queue_append-GetsUnlessFull_example :
    GetsUnlessFull (node_alloc (some pool) none) two_flows 9 55 (queue_append two_flows none 9 55)
unfolding node_alloc
queue_append-GetsUnlessFull_example =
    queue_append-GetsUnlessFull two_flows none 9 55 two_flows-Linked (refl, (refl, tt)) refl refl

node_alloc-Allocates_example : Allocates pool (0 ∷ 2 ∷ []) (node_alloc (some pool) none)
node_alloc-Allocates_example = node_alloc-Allocates pool (0 ∷ 2 ∷ []) none pool-Pooled
