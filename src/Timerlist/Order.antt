-- ===== src/Timerlist/Order.antt =====
-- The heap order of the timer list.
use liteflow.Base.{
  ℕ, zero, suc, ◌+◌, ◌-◌, ◌/◌, ◌≤◌, ◌<◌, ◌≡◌, ◌≢◌, arith, ltb, if◌then◌else◌, Bool-cases, inl, inr,
  refl,
}
use liteflow.Treemap.Shape.{Returns}
use liteflow.Timerlist.{Timerlist, HeapNode, put, heap_swap, adjust_up, timerlist_top}

module _ {K V : Type 0} where
  abbrev pub time_at : Timerlist K V → ℕ → ℕ
  time_at tq i = (tq.heap i).time

  -- No entry is earlier than its parent.
  pub record IsHeap (tq : Timerlist K V) : Type 0 where
    pub ordered : (i : ℕ) → 0 < i → i < tq.node_count → time_at tq ((i - 1) / 2) ≤ time_at tq i

  -- The same but at `s`, whose children are not earlier than its parent.
  pub record IsHeapBut (tq : Timerlist K V) (s : ℕ) : Type 0 where
    pub ordered :
        (i : ℕ) → 0 < i → i < tq.node_count → i ≢ s → time_at tq ((i - 1) / 2) ≤ time_at tq i
    pub across :
        (i : ℕ)
        → 0 < i
        → i < tq.node_count
        → 0 < s
        → (i - 1) / 2 ≡ s
        → time_at tq ((s - 1) / 2) ≤ time_at tq i

  swap_up :
      (tq : Timerlist K V) (p : ℕ)
      → IsHeapBut tq (suc p)
      → suc p < tq.node_count
      → time_at tq (suc p) < time_at tq (p / 2)
      → IsHeapBut (heap_swap tq (suc p) (p / 2)) (p / 2)
  unfolding heap_swap
  swap_up tq p h b l = record {
    ordered =
        λ i z k n. ground (arith, h.ordered i z k, h.ordered (p / 2), h.across i z k (omega arith));
    across = λ i z k s e.
        ground (arith, h.ordered i z k, h.ordered (p / 2), h.across i z k (omega arith));
  }

  pub adjust_up-IsHeap :
      (f : ℕ) (tq : Timerlist K V) (s : ℕ)
      → s ≤ f
      → s < tq.node_count
      → IsHeapBut tq s
      → IsHeap (adjust_up f tq s) × ((adjust_up f tq s).node_count ≡ tq.node_count)
  unfolding adjust_up heap_swap
  adjust_up-IsHeap zero tq zero b k h =
      (record { ordered = λ i z n. h.ordered i z n (omega arith) }, refl)
  adjust_up-IsHeap zero tq (suc p) b k h = absurd (omega arith)
  adjust_up-IsHeap (suc f) tq zero b k h =
      (record { ordered = λ i z n. h.ordered i z n (omega arith) }, refl)
  adjust_up-IsHeap (suc f) tq (suc p) b k h =
      elim (Bool-cases (ltb (time_at tq (suc p)) (time_at tq (p / 2)))) [
        | inl e ↦
            rw (e, if◌then◌else◌)
              (adjust_up-IsHeap f (heap_swap tq (suc p) (p / 2)) (p / 2) (omega arith) (omega arith)
                (swap_up tq p h k (ground arith)))
        | inr e ↦
            rw (e, if◌then◌else◌)
              (record { ordered = λ i z n. ground (arith, h.ordered i z n) }, refl)
      ]

  -- In a heap, no entry is earlier than the first.
  first_least :
      (f : ℕ) (tq : Timerlist K V) (i : ℕ)
      → IsHeap tq
      → i ≤ f
      → i < tq.node_count
      → time_at tq 0 ≤ time_at tq i
  first_least f tq zero h b k = omega arith
  first_least zero tq (suc p) h b k = absurd (omega arith)
  first_least (suc f) tq (suc p) h b k =
      let up = first_least f tq (p / 2) h (omega arith) (omega arith) in
      ground (arith, up, h.ordered (suc p) (omega arith) k)

  -- In a heap with an entry, timerlist_top returns an entry whose time is at most that of every entry.
  pub timerlist_top-least :
      (tq : Timerlist K V) (i : ℕ)
      → IsHeap tq
      → i < tq.node_count
      → Returns (timerlist_top tq) (λ (time, key, value).
        (time ≤ time_at tq i)
        × (key ≡ (tq.nodes (tq.heap 0).node).key)
        × (value ≡ (tq.nodes (tq.heap 0).node).value))
  unfolding timerlist_top
  timerlist_top-least tq i h k = ground (arith, first_least i tq i h (omega arith) k)

  -- A list with one more entry behind those of a heap.
  pub pushed :
      (tq tq' : Timerlist K V) (e : HeapNode)
      → tq'.node_count ≡ tq.node_count + 1
      → ((i : ℕ) → time_at tq' i ≡ (put tq.node_count e tq.heap i).time)
      → IsHeap tq
      → IsHeapBut tq' tq.node_count
  pushed tq tq' e c same h = record {
    ordered = λ i z n m. ground (arith, h.ordered i z, same i, same ((i - 1) / 2));
    across = λ i z n s e. absurd (omega arith);
  }
