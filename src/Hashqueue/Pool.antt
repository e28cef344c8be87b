-- ===== src/Hashqueue/Pool.antt =====
-- The pool of nodes of a queue of fixed size in common/hashqueue.c.
use liteflow.Base.{
  ℕ, ◌+◌, ◌-◌, ◌<◌, ◌≡◌, arith, refl, true, false, Option, none, some, List, [], ◌∷◌, unlink, has,
  Distinct, length,
}
use liteflow.Hashqueue.{NodeMem, node_alloc}
use liteflow.Hashqueue.Delete.{has-unlink, length-unlink}

-- The nodes of the pool are the ones in the queue, the ones given back and the ones never used; none
-- is in two places, and the first two kinds lie below alloc_ptr.
pub record Pooled (mem : NodeMem) (queue : List ℕ) : Type 0 where
  pub disjoint : (a : ℕ) → has a queue ≡ true → has a mem.realloc_stack ≡ false
  pub distinct : Distinct mem.realloc_stack
  pub below : (a : ℕ) → has a queue ≡ true → a < mem.alloc_ptr
  pub below_stack : (a : ℕ) → has a mem.realloc_stack ≡ true → a < mem.alloc_ptr
  pub used : length queue + length mem.realloc_stack ≡ mem.alloc_ptr
  pub total : mem.alloc_ptr + mem.unalloc_node ≡ mem.node_total

-- What node_alloc does to a pool.
abbrev pub Allocates : NodeMem → List ℕ → Option (ℕ × Option NodeMem) → Type 0
Allocates mem queue none = length queue ≡ mem.node_total
Allocates mem queue (some (a, none)) = ⊥
Allocates mem queue (some (a, some mem')) =
    (length queue < mem.node_total)
    × (has a queue ≡ false)
    × Pooled mem' (a ∷ queue)
    × (mem'.node_total ≡ mem.node_total)

reused :
    (mem : NodeMem) (queue : List ℕ) (a : ℕ) (rest : List ℕ)
    → mem.realloc_stack ≡ a ∷ rest
    → Pooled mem queue
    → (has a queue ≡ false)
      × (length queue < mem.node_total)
      × Pooled (record mem { realloc_stack = rest }) (a ∷ queue)
reused mem queue a rest e p = (
  ground (arith, p.disjoint a),
  ground (arith, p.used, p.total),
  record {
    disjoint = λ b h. ground (arith, p.disjoint b, p.distinct);
    distinct = ground (arith, p.distinct);
    below = λ b h. ground (arith, p.below b, p.below_stack a);
    below_stack = λ b h. ground (arith, p.below_stack b);
    used = ground (arith, p.used);
    total = p.total;
  },
)

first_use :
    (mem : NodeMem) (queue : List ℕ)
    → mem.realloc_stack ≡ []
    → 0 < mem.unalloc_node
    → Pooled mem queue
    → (has mem.alloc_ptr queue ≡ false)
      × (length queue < mem.node_total)
      × Pooled
          (record mem { alloc_ptr = mem.alloc_ptr + 1; unalloc_node = mem.unalloc_node - 1 })
          (mem.alloc_ptr ∷ queue)
first_use mem queue e n p = (
  ground (arith, p.below mem.alloc_ptr),
  ground (arith, p.used, p.total),
  record {
    disjoint = λ b h. ground arith;
    distinct = p.distinct;
    below = λ b h. ground (arith, p.below b);
    below_stack = λ b h. ground arith;
    used = ground (arith, p.used);
    total = ground (arith, p.total);
  },
)

-- A pool whose nodes are all accounted for fails to give a node only when all of them are in the queue;
-- otherwise the node is in no list, and with it in the queue the pool is accounted for again.
pub node_alloc-Allocates :
    (mem : NodeMem) (queue : List ℕ) (fresh : Option ℕ)
    → Pooled mem queue
    → Allocates mem queue (node_alloc (some mem) fresh)
unfolding node_alloc
node_alloc-Allocates mem queue fresh p = pick mem.realloc_stack refl
  where
    pick :
        (stack : List ℕ)
        → mem.realloc_stack ≡ stack
        → Allocates mem queue (node_alloc (some mem) fresh)
    pick [] e = ground (arith, first_use mem queue, p.used, p.total)
    pick (a ∷ rest) e = ground (arith, reused mem queue a rest)

-- A node of the queue that is given back goes from the queue to the pool, and may be handed out again.
pub node_free-Pooled :
    (mem : NodeMem) (queue : List ℕ) (a : ℕ)
    → Distinct queue
    → has a queue ≡ true
    → Pooled mem queue
    → Pooled (record mem { realloc_stack = a ∷ mem.realloc_stack }) (unlink a queue)
node_free-Pooled mem queue a d h p = record {
  disjoint = λ b e. ground (arith, has-unlink a b queue d, p.disjoint b);
  distinct = (p.disjoint a h, p.distinct);
  below = λ b e. ground (arith, has-unlink a b queue d, p.below b);
  below_stack = λ b e. ground (arith, p.below a h, p.below_stack b);
  used = ground (arith, length-unlink a queue h, p.used);
  total = p.total;
}
