-- ===== src/Retrans.antt =====
-- The packets in flight of one connection: src/retrans.c and src/retrans.h.
-- packet_list is the entries of the ordered map in the order of their sequence numbers; waiting_queue
-- is the list of the sequence numbers of the packets linked into it. The functions take the host and
-- the module's own state, and return those that they write. Readings of the clock are arguments. The
-- queue of ready packets, which all connections share, is behind an interface.
pub mod Events
pub mod Account
pub mod Waiting
pub mod Rate
mod Examples
use liteflow.Base.{
  ℕ, zero, suc, ◌+◌, ◌-◌, ◌*◌, ◌/◌, ◌%◌, ◌==◌, Bool, true, false, not, ◌&&◌, ◌||◌, ltb, leb,
  or_else, max_of, if◌then◌else◌, unlink, last_of, Option, none, some, List, [], ◌∷◌, ◌++◌, ◌>>=◌,
  length,
}
use liteflow.Base.Word.{u32, u64, add32, sub32}
use liteflow.Config.{Transport}
use liteflow.Host.{Host, RateSample, usec_per_sec}
use liteflow.Filter.{filter_get, filter_update_max}
use liteflow.Seq.{less_equal, after, seq_cmp}
use liteflow.Treemap.Entries.{insert_entry, erase_entry, find_entry}

pub record Packet : Type 0 where
  pub send_time : ℕ
  pub retrans_time : ℕ
  pub delivered_time : ℕ
  pub first_tx_time : ℕ
  pub delivered : ℕ
  pub seq : ℕ
  pub length : ℕ
  pub fec_seq : ℕ
  pub fec_index : ℕ
  pub is_ready : Bool
  pub is_app_limited : Bool
  pub retrans_round : ℕ

pub record Retrans : Type 0 where
  pub packet_list : List (ℕ × Packet)
  pub waiting_queue : List ℕ

-- What retransmission uses of the timer list that holds the ready packets. push returns none where
-- memory runs out.
pub record TimerQueue (Q : Type 0) : Type 0 where
  pub push : Q → ℕ → ℕ × ℕ → Option Q
  pub del : Q → ℕ × ℕ → Q

-- 0, LITEDT_RECORD_EXISTS and -1.
pub data CreateRet : Type 0 where
  stored record_exists out_of_memory : CreateRet

unfoldable pub retrans_mod_init : Retrans
retrans_mod_init = record { packet_list = []; waiting_queue = [] }

unfoldable pub find_retrans : Retrans → ℕ → Option Packet
find_retrans rt seq = find_entry seq_cmp seq rt.packet_list

-- A write through a pointer to the packet `q`.
abbrev pub put_packet : ℕ → Packet → List (ℕ × Packet) → List (ℕ × Packet)
put_packet q p [] = []
put_packet q p ((k, old) ∷ xs) =
    let rest = put_packet q p xs in if k == q then ((k, p) ∷ xs) else ((k, old) ∷ rest)

-- The retransmission time of the last packet of the waiting queue, where there is one.
abbrev pub last_time : Retrans → Option ℕ
unfolding find_retrans
last_time rt = do q ← last_of rt.waiting_queue; p ← find_retrans rt q; some p.retrans_time

-- if (retrans_time < last->retrans_time) retrans_time = last->retrans_time
abbrev pub not_before : Option ℕ → ℕ → ℕ
not_before none time = time
not_before (some last) time = if ltb time last then last else time

-- `rto x` is (int)(x * rto_ratio), a product in floating point.
unfoldable pub get_retrans_time : Transport → (ℕ → ℕ) → Host → ℕ → ℕ
get_retrans_time cfg rto host cur_time =
    let rtt = or_else host.srtt cfg.max_rtt in
    if ltb cfg.max_rtt rtt
    then cur_time + rto cfg.max_rtt
    else if ltb rtt cfg.min_rtt
    then cur_time + rto cfg.min_rtt
    else cur_time + rto rtt

-- The packet that create_packet_entry fills in.
unfoldable pub new_packet : Host → ℕ → ℕ → ℕ → ℕ → ℕ → ℕ → Packet
new_packet host now retrans_time seq length fec_seq fec_index = record {
  send_time = now;
  retrans_time = retrans_time;
  delivered_time = host.delivered_time;
  first_tx_time = host.first_tx_time;
  delivered = host.delivered;
  seq = seq;
  length = length;
  fec_seq = fec_seq;
  fec_index = fec_index;
  is_ready = false;
  is_app_limited = not (host.app_limited == 0);
  retrans_round = 0;
}

-- `alloc` says whether malloc succeeds; on an empty map a failure reads through NULL.
unfoldable pub create_packet_entry :
    Transport
    → (ℕ → ℕ)
    → ℕ
    → Bool
    → Host
    → Retrans
    → ℕ
    → ℕ
    → ℕ
    → ℕ
    → Option (Host × Retrans × CreateRet)
unfolding find_retrans new_packet get_retrans_time
create_packet_entry cfg rto now alloc host rt seq length fec_seq fec_index =
    let time = not_before (last_time rt) (get_retrans_time cfg rto host now) in
    let counted : Host = record host {
      inflight = add32 host.inflight 1;
      inflight_bytes = add32 host.inflight_bytes length;
    } in
    let packet = new_packet host now time seq length fec_seq fec_index in
    elim (find_retrans rt seq) [
      | some p ↦ some (host, rt, record_exists)
      | none ↦
          if alloc
          then some (
            counted,
            record {
              packet_list = insert_entry seq_cmp seq packet rt.packet_list;
              waiting_queue = rt.waiting_queue ++ (seq ∷ []);
            },
            stored,
          )
          else if liteflow.Base.length rt.packet_list == 0
          then none
          else some (counted, rt, out_of_memory)
    ]

-- The part of packet_delivered that samples the round-trip time: only of a packet sent once.
unfoldable pub sample_rtt : ℕ → Packet → RateSample → RateSample
sample_rtt now packet rs =
    let rtt = now - packet.send_time in
    if packet.retrans_round == 0 && (rs.rtt_us == 0 || ltb rtt rs.rtt_us)
    then record rs { rtt_us = u32 rtt }
    else rs

-- Whether the packet is the most recently sent one that the sample has seen.
unfoldable pub is_newest : Packet → RateSample → Bool
unfolding after
is_newest packet rs = rs.prior_delivered == 0 || after packet.delivered rs.prior_delivered

unfoldable pub packet_delivered : ℕ → Host → Packet → RateSample → Host × RateSample
unfolding sample_rtt is_newest
packet_delivered now host packet rs =
    let counted : Host = record host {
      inflight = sub32 host.inflight 1;
      inflight_bytes = sub32 host.inflight_bytes packet.length;
      delivered_bytes = add32 host.delivered_bytes packet.length;
      delivered = or_else (add32 host.delivered 1) 1;
    } in
    let sampled = sample_rtt now packet rs in
    if is_newest packet sampled
    then (
      record counted { first_tx_time = packet.send_time },
      record sampled {
        prior_delivered = packet.delivered;
        prior_mstamp = packet.delivered_time;
        is_app_limited = packet.is_app_limited;
        interval_us = packet.send_time - packet.first_tx_time;
      },
    )
    else (counted, sampled)

-- --host->app_limited has no guard: at 0 it wraps round.
unfoldable pub packet_abandon : Host → Packet → Host
packet_abandon host packet = record host {
  inflight = sub32 host.inflight 1;
  inflight_bytes = sub32 host.inflight_bytes packet.length;
  app_limited = sub32 host.app_limited 1;
}

module _ {Q : Type 0} (queue : TimerQueue Q) (flow : ℕ) where
  unfoldable pub release_packet_entry :
      ℕ → Packet → Host × Retrans × Q × RateSample → Host × Retrans × Q × RateSample
  unfolding packet_delivered
  release_packet_entry now packet (host, rt, q, rs) =
      let posted : Host = record host {
        data_packet_post_succ = add32 host.data_packet_post_succ 1;
      } in
      let (host', rs') = packet_delivered now posted packet rs in
      let left = erase_entry seq_cmp packet.seq rt.packet_list in
      if packet.is_ready
      then (host', record rt { packet_list = left }, queue.del q (flow, packet.seq), rs')
      else (
        host',
        record { packet_list = left; waiting_queue = unlink packet.seq rt.waiting_queue },
        q,
        rs',
      )

  -- The loop of release_packet_range, along the entries from treemap_lower_bound on. `now` gives the
  -- clock as it is read for each packet.
  unfoldable pub release_while :
      (ℕ → ℕ)
      → ℕ
      → List (ℕ × Packet)
      → Host × Retrans × Q × RateSample
      → Host × Retrans × Q × RateSample
  unfolding release_packet_entry less_equal
  release_while now seq_end [] st = st
  release_while now seq_end ((k, packet) ∷ it) st =
      if less_equal seq_end packet.seq
      then st
      else release_while now seq_end it (release_packet_entry (now packet.seq) packet st)

  -- The loop of retrans_checkpoint; each round takes the first entry anew.
  unfoldable pub checkpoint_while :
      ℕ → (ℕ → ℕ) → ℕ → Host × Retrans × Q × RateSample → Option (Host × Retrans × Q × RateSample)
  unfolding release_packet_entry less_equal
  checkpoint_while zero now swnd_start st = none
  checkpoint_while (suc f) now swnd_start st = elim st.1.packet_list [
    | [] ↦ some st
    | (k, packet) ∷ rest ↦
        if less_equal swnd_start packet.seq
        then some st
        else checkpoint_while f now swnd_start (release_packet_entry (now packet.seq) packet st)
  ]

  -- The number of entries is enough fuel.
  unfoldable pub retrans_checkpoint :
      (ℕ → ℕ) → ℕ → Host × Retrans × Q × RateSample → Option (Host × Retrans × Q × RateSample)
  unfolding checkpoint_while
  retrans_checkpoint now swnd_start st =
      checkpoint_while (suc (length st.1.packet_list)) now swnd_start st
