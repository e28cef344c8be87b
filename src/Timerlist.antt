-- ===== src/Timerlist.antt =====
-- The timer list of common/timerlist.c and common/timerlist.h: a binary heap by time, whose nodes are
-- also chained by the hash of their key. A node is known by its address. The heap and the buckets are
-- functions from an index; hash_fn and memcmp on keys are parameters.
pub mod Order
pub mod Push
mod Examples
use liteflow.Base.{
  ℕ, zero, suc, ◌+◌, ◌-◌, ◌*◌, ◌/◌, ◌%◌, ◌==◌, Bool, true, false, not, ◌&&◌, ltb, leb,
  if◌then◌else◌, Option, none, some, List, [], ◌∷◌, ◌++◌,
}
use liteflow.Base.Word.{u32_mod, add32, mul32}

pub record TimerNode (K V : Type 0) : Type 0 where
  pub heap_id : ℕ
  pub key : K
  pub value : V

pub record HeapNode : Type 0 where
  pub time : ℕ
  pub node : ℕ

pub record Timerlist (K V : Type 0) : Type 0 where
  pub bucket_size : ℕ
  pub node_count : ℕ
  pub node_capacity : ℕ
  pub hash : ℕ → List ℕ
  pub heap : ℕ → HeapNode
  pub nodes : ℕ → TimerNode K V

abbrev pub node_capacity_initial : ℕ
node_capacity_initial = 32

-- sizeof(heap_node_t): a time and a pointer.
abbrev pub heap_node_size : ℕ
heap_node_size = 16

-- sizeof(heap_node_t) * new_capacity in uint32_t, as a number of entries.
abbrev pub grown_entries : ℕ → ℕ
grown_entries capacity = mul32 heap_node_size capacity / heap_node_size

abbrev pub put {ℓ} : {A : Type ℓ} → ℕ → A → (ℕ → A) → ℕ → A
put i a f j = if j == i then a else f j

-- list_del of a node from its chain.
abbrev pub remove : ℕ → List ℕ → List ℕ
remove a [] = []
remove a (x ∷ xs) = let rest = remove a xs in if x == a then xs else (x ∷ rest)

-- The chain behind a node.
abbrev pub behind : ℕ → List ℕ → List ℕ
behind n [] = []
behind n (x ∷ xs) = let rest = behind n xs in if x == n then xs else rest

module _ {K V : Type 0} where
  -- HEAP_SWAP(heap[a], heap[b]): the entries, and the heap_id of their nodes.
  unfoldable pub heap_swap : Timerlist K V → ℕ → ℕ → Timerlist K V
  heap_swap tq a b =
      let x = tq.heap a in
      let y = tq.heap b in
      let ida = (tq.nodes x.node).heap_id in
      let idb = (tq.nodes y.node).heap_id in
      let moved = put x.node (record (tq.nodes x.node) { heap_id = idb }) tq.nodes in
      record tq {
        heap = put b x (put a y tq.heap);
        nodes = put y.node (record (moved y.node) { heap_id = ida }) moved;
      }

  -- The index of the entry to move to is below that of the entry, so that it is enough fuel.
  unfoldable pub adjust_up : ℕ → Timerlist K V → ℕ → Timerlist K V
  unfolding heap_swap
  adjust_up zero tq s = tq
  adjust_up (suc f) tq zero = tq
  adjust_up (suc f) tq (suc p) =
      let t = p / 2 in
      let moved = adjust_up f (heap_swap tq (suc p) t) t in
      if ltb (tq.heap (suc p)).time (tq.heap t).time then moved else tq

  -- The smaller child of `s`.
  abbrev pub smaller_child : Timerlist K V → ℕ → ℕ
  smaller_child tq s =
      let t = s * 2 + 1 in
      if ltb (t + 1) tq.node_count && ltb (tq.heap (t + 1)).time (tq.heap t).time then t + 1 else t

  -- The index grows and stays below node_count, which is enough fuel.
  unfoldable pub adjust_down : ℕ → Timerlist K V → ℕ → Timerlist K V
  unfolding heap_swap
  adjust_down zero tq s = tq
  adjust_down (suc f) tq s =
      let t = smaller_child tq s in
      let moved = adjust_down f (heap_swap tq s t) t in
      if leb 2 tq.node_count && leb s ((tq.node_count - 2) / 2)
      then (if ltb (tq.heap t).time (tq.heap s).time then moved else tq)
      else tq

  unfoldable pub timerlist_top : Timerlist K V → Option (ℕ × K × V)
  timerlist_top tq =
      let top = tq.heap 0 in
      let node = tq.nodes top.node in
      if tq.node_count == 0 then none else some (top.time, node.key, node.value)

  unfoldable pub timerlist_resched_top : Timerlist K V → ℕ → Timerlist K V × ℕ
  unfolding adjust_down
  timerlist_resched_top tq time = if tq.node_count == 0 then (tq, 0) else (
    adjust_down tq.node_count
        (record tq { heap = put 0 (record (tq.heap 0) { time = time }) tq.heap }) 0,
    1,
  )

  unfoldable pub timerlist_empty : Timerlist K V → Bool
  timerlist_empty tq = tq.node_count == 0

  unfoldable pub timerlist_size : Timerlist K V → ℕ
  timerlist_size tq = tq.node_count

  unfoldable pub timerlist_time : Timerlist K V → ℕ → ℕ
  timerlist_time tq n = (tq.heap (tq.nodes n).heap_id).time

module _ {K V : Type 0} (hash_fn : K → ℕ) (same : K → K → Bool) where
  abbrev pub bucket_of : Timerlist K V → K → ℕ
  bucket_of tq key = hash_fn key % tq.bucket_size

  -- `grown` and `alloc` say whether realloc and malloc succeed; `fresh` is the address of the new node.
  -- none is a write behind the end of a heap whose size has wrapped round.
  unfoldable pub timerlist_push :
      Bool → Option ℕ → Timerlist K V → ℕ → K → V → Option (Timerlist K V × Bool)
  unfolding adjust_up
  timerlist_push grown alloc tq time key value =
      let full = leb tq.node_capacity tq.node_count in
      let capacity = if full then mul32 tq.node_capacity 2 else tq.node_capacity in
      let hv = bucket_of tq key in
      let outside = full && leb (grown_entries capacity) tq.node_count in
      if full && not grown then some (tq, false) else elim alloc [
        | none ↦ some (record tq { node_capacity = capacity }, false)
        | some fresh ↦
            if outside
            then none
            else some (
              adjust_up tq.node_count
                  (record tq {
                    node_capacity = capacity;
                    node_count = add32 tq.node_count 1;
                    hash = put hv (tq.hash hv ++ (fresh ∷ [])) tq.hash;
                    heap = put tq.node_count (record { time = time; node = fresh }) tq.heap;
                    nodes =
                        put fresh (record { heap_id = tq.node_count; key = key; value = value })
                          tq.nodes;
                  })
                  tq.node_count,
              true,
            )
      ]

  unfoldable pub timerlist_pop : Timerlist K V → Timerlist K V
  unfolding adjust_down heap_swap
  timerlist_pop tq =
      let last = tq.node_count - 1 in
      let less = record tq { node_count = last } in
      let down = if last == 0 then less else adjust_down last (heap_swap less 0 last) 0 in
      let gone = (down.heap last).node in
      let hv = bucket_of tq (down.nodes gone).key in
      if tq.node_count == 0
      then tq
      else record down { hash = put hv (remove gone (down.hash hv)) down.hash }

  -- The first node of a chain with the key.
  abbrev pub find_in : Timerlist K V → K → List ℕ → Option ℕ
  find_in tq key [] = none
  find_in tq key (n ∷ ns) =
      let rest = find_in tq key ns in if same (tq.nodes n).key key then some n else rest

  unfoldable pub timerlist_find_first : Timerlist K V → K → Option ℕ
  timerlist_find_first tq key = find_in tq key (tq.hash (bucket_of tq key))

  unfoldable pub timerlist_get : Timerlist K V → K → Option (ℕ × V)
  timerlist_get tq key = elim (find_in tq key (tq.hash (bucket_of tq key))) [
    | none ↦ none
    | some n ↦ some ((tq.heap (tq.nodes n).heap_id).time, (tq.nodes n).value)
  ]

  -- The loop of timerlist_moveup along a chain, and the number of entries moved.
  unfoldable pub moveup_while : Timerlist K V → ℕ → K → List ℕ → ℕ → Timerlist K V × ℕ
  unfolding adjust_up
  moveup_while tq time key [] count = (tq, count)
  moveup_while tq time key (n ∷ ns) count =
      let id = (tq.nodes n).heap_id in
      let sooner = record tq { heap = put id (record (tq.heap id) { time = time }) tq.heap } in
      let skipped = moveup_while tq time key ns count in
      let moved = moveup_while (adjust_up id sooner id) time key ns (count + 1) in
      if same (tq.nodes n).key key && ltb time (tq.heap id).time then moved else skipped

  unfoldable pub timerlist_moveup : Timerlist K V → ℕ → K → Timerlist K V × ℕ
  unfolding moveup_while
  timerlist_moveup tq time key = moveup_while tq time key (tq.hash (bucket_of tq key)) 0

  -- The loop of timerlist_resched.
  unfoldable pub resched_while : Timerlist K V → ℕ → K → List ℕ → ℕ → Timerlist K V × ℕ
  unfolding adjust_up adjust_down
  resched_while tq time key [] count = (tq, count)
  resched_while tq time key (n ∷ ns) count =
      let id = (tq.nodes n).heap_id in
      let timed = record tq { heap = put id (record (tq.heap id) { time = time }) tq.heap } in
      let skipped = resched_while tq time key ns count in
      let up = resched_while (adjust_up id timed id) time key ns (count + 1) in
      let down = resched_while (adjust_down tq.node_count timed id) time key ns (count + 1) in
      if same (tq.nodes n).key key
      then (if ltb time (tq.heap id).time then up else down)
      else skipped

  unfoldable pub timerlist_resched : Timerlist K V → ℕ → K → Timerlist K V × ℕ
  unfolding resched_while
  timerlist_resched tq time key = resched_while tq time key (tq.hash (bucket_of tq key)) 0

  -- The loop of timerlist_del.
  unfoldable pub del_while : Timerlist K V → K → ℕ → List ℕ → ℕ → Timerlist K V × ℕ
  unfolding heap_swap adjust_up adjust_down
  del_while tq key hv [] count = (tq, count)
  del_while tq key hv (n ∷ ns) count =
      let id = (tq.nodes n).heap_id in
      let last = tq.node_count - 1 in
      let less = record tq { node_count = last } in
      let fixed =
        if id == last
        then less
        else adjust_down last (adjust_up id (heap_swap less id last) id) id in
      let gone = record fixed { hash = put hv (remove n (fixed.hash hv)) fixed.hash } in
      let skipped = del_while tq key hv ns count in
      let deleted = del_while gone key hv ns (count + 1) in
      if same (tq.nodes n).key key then deleted else skipped

  unfoldable pub timerlist_del : Timerlist K V → K → Timerlist K V × ℕ
  unfolding del_while
  timerlist_del tq key = let hv = bucket_of tq key in del_while tq key hv (tq.hash hv) 0

  unfoldable pub timerlist_find_next : Timerlist K V → ℕ → Option ℕ
  timerlist_find_next tq n =
      let key = (tq.nodes n).key in find_in tq key (behind n (tq.hash (bucket_of tq key)))

  -- The loop of timerlist_clear, over the entries from the last one down to the first.
  unfoldable pub clear_while : ℕ → Timerlist K V → (ℕ → List ℕ) → ℕ → List ℕ
  clear_while zero tq hash = hash
  clear_while (suc i) tq hash =
      let gone = (tq.heap i).node in
      let hv = bucket_of tq (tq.nodes gone).key in
      clear_while i tq (put hv (remove gone (hash hv)) hash)

  unfoldable pub timerlist_clear : Timerlist K V → Timerlist K V
  unfolding clear_while
  timerlist_clear tq = record tq { node_count = 0; hash = clear_while tq.node_count tq tq.hash }

-- `hash_ok` and `heap_ok` say whether the two mallocs succeed; none is -1. What malloc leaves in the
-- heap and in the nodes is `heap` and `nodes`.
unfoldable pub timerlist_init :
    {K V : Type 0} → Bool → Bool → ℕ → (ℕ → HeapNode) → (ℕ → TimerNode K V) → Option (Timerlist K V)
timerlist_init hash_ok heap_ok bucket_size heap nodes =
    if hash_ok && heap_ok
    then some (record {
      bucket_size = bucket_size;
      node_count = 0;
      node_capacity = node_capacity_initial;
      hash = λ i. [];
      heap = heap;
      nodes = nodes;
    })
    else none
