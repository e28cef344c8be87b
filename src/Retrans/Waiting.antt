-- ===== src/Retrans/Waiting.antt =====
-- The waiting queue is in the order of the retransmission times, so that its first packet is the next
-- one due.
use liteflow.Base.{
  unlink, last_of, ℕ, suc, ◌≤◌, ◌≡◌, ◌≢◌, arith, refl, Bool, true, false, Option, none, some, List,
  [], ◌∷◌, ◌++◌, All, ◌>>=◌,
}
use liteflow.Host.{Host}
use liteflow.Seq.{seq_cmp}
use liteflow.Treemap.Entries.{find_entry}
use liteflow.Treemap.Shape.{Returns}
use liteflow.Retrans.{
  Packet, Retrans, TimerQueue, find_retrans, put_packet, CreateRet, stored, record_exists,
  out_of_memory,
}
use liteflow.Retrans.Events.{time_event_while, retrans_time_event}

-- A packet was found, its time is at least `lo`, and `P` holds from its time on.
abbrev pub FoundFrom : Option Packet → ℕ → (ℕ → Type 0) → Type 0
FoundFrom none lo P = ⊥
FoundFrom (some p) lo P = (lo ≤ p.retrans_time) × P p.retrans_time

FoundFrom-map :
    (o : Option Packet) (lo : ℕ) (P R : ℕ → Type 0)
    → ((t : ℕ) → P t → R t)
    → FoundFrom o lo P
    → FoundFrom o lo R
FoundFrom-map none lo P R f x = x
FoundFrom-map (some p) lo P R f x = (x.0, f p.retrans_time x.1)

-- All packets of the queue are in the list, and their times do not decrease, from `lo` on.
abbrev pub IsWaiting : List (ℕ × Packet) → ℕ → List ℕ → Type 0
IsWaiting pkts lo [] = Unit
IsWaiting pkts lo (q ∷ qs) = FoundFrom (find_entry seq_cmp q pkts) lo (λ t. IsWaiting pkts t qs)

abbrev pub IsDistinct : List ℕ → Type 0
IsDistinct [] = Unit
IsDistinct (q ∷ qs) = All (λ r. q ≢ r) qs × IsDistinct qs

-- The queue of the module is waiting, with no packet linked twice.
pub record IsQueued (lo : ℕ) (rt : Retrans) : Type 0 where
  pub waiting : IsWaiting rt.packet_list lo rt.waiting_queue
  pub distinct : IsDistinct rt.waiting_queue

find-put_packet :
    (q s : ℕ) (p : Packet) (xs : List (ℕ × Packet))
    → q ≢ s
    → find_entry seq_cmp s (put_packet q p xs) ≡ find_entry seq_cmp s xs
unfolding seq_cmp
find-put_packet q s p [] n = refl
find-put_packet q s p ((k, old) ∷ xs) n = ground (arith, find-put_packet q s p xs n)

IsWaiting-put_packet :
    (q : ℕ) (p : Packet) (pkts : List (ℕ × Packet)) (lo : ℕ) (qs : List ℕ)
    → All (λ r. q ≢ r) qs
    → IsWaiting pkts lo qs
    → IsWaiting (put_packet q p pkts) lo qs
IsWaiting-put_packet q p pkts lo [] n w = tt
IsWaiting-put_packet q p pkts lo (r ∷ qs) n w = rw (find-put_packet q r p pkts n.0) (
    FoundFrom-map (find_entry seq_cmp r pkts) lo (λ t. IsWaiting pkts t qs) _
      (λ t. IsWaiting-put_packet q p pkts t qs n.1) w)

IsWaiting-weaken :
    (pkts : List (ℕ × Packet)) (lo hi : ℕ) (qs : List ℕ)
    → lo ≤ hi
    → IsWaiting pkts hi qs
    → IsWaiting pkts lo qs
IsWaiting-weaken pkts lo hi [] h w = tt
IsWaiting-weaken pkts lo hi (q ∷ qs) h w = ground arith

-- After the time event: the queue is still in order, and where no push failed, no packet in it is due.
pub record Fired (cur_time : ℕ) (rt : Retrans) (ok : Bool) : Type 0 where
  pub queued : IsQueued 0 rt
  pub none_due : ok ≡ true → IsWaiting rt.packet_list (suc cur_time) rt.waiting_queue

module _ {Q : Type 0} (queue : TimerQueue Q) (flow : ℕ) where
  time_event_while-Fired :
      (cur_time lo : ℕ) (qs : List ℕ) (rt : Retrans) (q : Q)
      → rt.waiting_queue ≡ qs
      → IsQueued lo rt
      → Returns
          (time_event_while queue flow cur_time qs rt q)
          (λ (rt', q', ok). Fired cur_time rt' ok)
  unfolding time_event_while find_retrans
  time_event_while-Fired cur_time lo [] rt q e w = ground arith
  time_event_while-Fired cur_time lo (s ∷ qs) rt q e w =
      go (find_entry seq_cmp s rt.packet_list)
        (λ t rt' q'. time_event_while-Fired cur_time t qs rt' q') refl
    where
      go :
          (found : Option Packet)
          (next : (t : ℕ) (rt' : Retrans) (q' : Q)
            → rt'.waiting_queue ≡ qs
            → IsQueued t rt'
            → Returns
                (time_event_while queue flow cur_time qs rt' q')
                (λ (rt'', q'', ok). Fired cur_time rt'' ok))
          → find_entry seq_cmp s rt.packet_list ≡ found
          → Returns
              (time_event_while queue flow cur_time (s ∷ qs) rt q)
              (λ (rt', q', ok). Fired cur_time rt' ok)
      go none next f = ground arith
      go (some p) next f = pushed (queue.push q p.send_time (flow, p.seq)) refl
        where
          marked : Retrans
          marked = record {
            packet_list = put_packet s (record p { is_ready = true }) rt.packet_list;
            waiting_queue = unlink s rt.waiting_queue;
          }

          pushed :
              (o : Option Q)
              → queue.push q p.send_time (flow, p.seq) ≡ o
              → Returns
                  (time_event_while queue flow cur_time (s ∷ qs) rt q)
                  (λ (rt', q', ok). Fired cur_time rt' ok)
          pushed none g = ground arith
          pushed (some q') g =
              let left : marked.waiting_queue ≡ qs = ground arith in
              let kept : IsWaiting marked.packet_list p.retrans_time marked.waiting_queue = ground (
                arith,
                left,
                IsWaiting-put_packet s (record p { is_ready = true }) rt.packet_list p.retrans_time
                    qs,
              ) in
              let queued : IsQueued p.retrans_time marked = ground (arith, kept) in
              ground (
                arith,
                IsWaiting-weaken rt.packet_list (suc cur_time) p.retrans_time (s ∷ qs),
                next p.retrans_time marked q' left queued,
              )

  -- What a time event returns; a closing connection is left alone.
  abbrev pub FiredUnless : Bool → ℕ → Retrans → Q → Retrans × Q × Bool → Type 0
  FiredUnless true cur_time rt q (rt', q', ok) = (rt' ≡ rt) × (q' ≡ q) × (ok ≡ true)
  FiredUnless false cur_time rt q (rt', q', ok) = Fired cur_time rt' ok

  -- A time event of retransmission on a queue in the order of its times never follows a dangling link.
  -- On a connection in CLOSE_WAIT or CLOSED it changes nothing, so that due packets stay waiting. On any
  -- other it leaves the queue in order, and where no push failed, no packet that still waits is due.
  pub retrans_time_event-Fired :
      (closing : Bool) (cur_time : ℕ) (rt : Retrans) (q : Q)
      → IsQueued 0 rt
      → Returns
          (retrans_time_event queue flow closing cur_time rt q)
          (FiredUnless closing cur_time rt q)
  unfolding retrans_time_event
  retrans_time_event-Fired true cur_time rt q w = (refl, refl, refl)
  retrans_time_event-Fired false cur_time rt q w =
      time_event_while-Fired cur_time 0 rt.waiting_queue rt q refl w

-- The time of the last packet of a queue.
abbrev last_from : List (ℕ × Packet) → List ℕ → Option ℕ
last_from pkts qs = last_of qs >>= λ q. find_entry seq_cmp q pkts >>= λ p. some p.retrans_time

-- The packet is in the list and at the end of the waiting queue, or nothing was changed.
abbrev pub Linked : ℕ → Retrans → Retrans → CreateRet → Type 0
Linked seq rt rt' stored =
    (rt'.waiting_queue ≡ rt.waiting_queue ++ (seq ∷ []))
    × (find_entry seq_cmp seq rt'.packet_list ≢ none)
Linked seq rt rt' record_exists = rt' ≡ rt
Linked seq rt rt' out_of_memory = ⊥
