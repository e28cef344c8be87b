-- ===== src/Retrans/Events.antt =====
-- The operations of src/retrans.c on time events and on acknowledgements.
use liteflow.Base.{
  unlink, ℕ, ◌+◌, ◌-◌, ◌*◌, ◌/◌, ◌==◌, Bool, true, false, not, ◌&&◌, ◌||◌, ltb, max_of,
  if◌then◌else◌, Option, none, some, List, [], ◌∷◌, ◌++◌, Ordering,
}
use liteflow.Base.Word.{u32, u64, add32, sub32, mul32}
use liteflow.Config.{Transport}
use liteflow.Host.{Host, RateSample, usec_per_sec}
use liteflow.Filter.{filter_get, filter_update_max}
use liteflow.Seq.{less_equal, after, seq_cmp}
use liteflow.Retrans.{
  Packet, Retrans, TimerQueue, find_retrans, put_packet, last_time, not_before, get_retrans_time,
  packet_abandon, release_while,
}

abbrev pub srtt_unit : ℕ
srtt_unit = 8

abbrev pub srtt_alpha : ℕ
srtt_alpha = 7

abbrev pub default_interval : ℕ
default_interval = 1000

-- The entries from treemap_lower_bound on.
abbrev pub from_lower_bound : ℕ → List (ℕ × Packet) → List (ℕ × Packet)
from_lower_bound q [] = []
from_lower_bound q ((k, p) ∷ xs) = elim (seq_cmp k q) [
  | Ordering.lt ↦ from_lower_bound q xs
  | _ ↦ (k, p) ∷ xs
]

unfoldable pub release_packet_range :
    {Q : Type 0}
    → TimerQueue Q
    → ℕ
    → (ℕ → ℕ)
    → ℕ
    → ℕ
    → Host × Retrans × Q × RateSample
    → Host × Retrans × Q × RateSample
unfolding release_while
release_packet_range queue flow now seq_start seq_end st =
    release_while queue flow now seq_end (from_lower_bound seq_start st.1.packet_list) st

-- The loop of retrans_time_event. It returns the state and whether no push failed; a link to a packet
-- that is not in the list would be a fault.
unfoldable pub time_event_while :
    {Q : Type 0} → TimerQueue Q → ℕ → ℕ → List ℕ → Retrans → Q → Option (Retrans × Q × Bool)
unfolding find_retrans
time_event_while queue flow cur_time [] rt q = some (rt, q, true)
time_event_while queue flow cur_time (seq ∷ rest) rt q = elim (find_retrans rt seq) [
  | none ↦ none
  | some p ↦
      if ltb cur_time p.retrans_time
      then some (rt, q, true)
      else elim (queue.push q p.send_time (flow, p.seq)) [
        | none ↦ some (rt, q, false)
        | some q' ↦
            time_event_while queue flow cur_time rest
              (record {
                packet_list = put_packet seq (record p { is_ready = true }) rt.packet_list;
                waiting_queue = unlink seq rt.waiting_queue;
              })
              q'
      ]
]

-- `closing` says that the connection is in CLOSE_WAIT or CLOSED.
unfoldable pub retrans_time_event :
    {Q : Type 0} → TimerQueue Q → ℕ → Bool → ℕ → Retrans → Q → Option (Retrans × Q × Bool)
unfolding time_event_while
retrans_time_event queue flow closing cur_time rt q =
    if closing
    then some (rt, q, true)
    else time_event_while queue flow cur_time rt.waiting_queue rt q

-- A packet of the ready queue goes back to the end of the waiting queue. That it is ready is asserted.
unfoldable pub queue_retrans : Transport → (ℕ → ℕ) → ℕ → Host → Retrans → Packet → Option Retrans
unfolding get_retrans_time
queue_retrans cfg rto cur_time host rt packet =
    let time = not_before (last_time rt) (get_retrans_time cfg rto host cur_time) in
    let tries = packet.retrans_round in
    if not packet.is_ready
    then none
    else some (record {
      packet_list =
          put_packet packet.seq
            (record packet {
              retrans_time = time;
              retrans_round = if ltb tries 65535 then tries + 1 else tries;
              is_ready = false;
            })
            rt.packet_list;
      waiting_queue = rt.waiting_queue ++ (packet.seq ∷ []);
    })

unfoldable pub retrans_next_event_time : Retrans → ℕ → Option ℕ
unfolding find_retrans
retrans_next_event_time rt cur_time = elim rt.waiting_queue [
  | [] ↦ some (cur_time + default_interval)
  | seq ∷ rest ↦ elim (find_retrans rt seq) [ none ↦ none | some p ↦ some p.retrans_time ]
]

-- The loop of retrans_mod_fini, over all entries.
unfoldable pub abandon_while :
    {Q : Type 0} → TimerQueue Q → ℕ → List (ℕ × Packet) → Host → Q → Host × Q
unfolding packet_abandon
abandon_while queue flow [] host q = (host, q)
abandon_while queue flow ((k, p) ∷ it) host q =
    abandon_while queue flow it (packet_abandon host p)
      (if p.is_ready then queue.del q (flow, p.seq) else q)

unfoldable pub retrans_mod_fini :
    {Q : Type 0} → TimerQueue Q → ℕ → Host → Retrans → Q → Host × Retrans × Q
unfolding abandon_while
retrans_mod_fini queue flow host rt q =
    let (host', q') = abandon_while queue flow rt.packet_list host q in
    (host', record rt { packet_list = [] }, q')

-- The smoothed round-trip time of generate_bandwidth.
unfoldable pub smooth_rtt : ℕ → ℕ → ℕ
smooth_rtt srtt rtt =
    if srtt == 0
    then rtt
    else add32 (mul32 srtt srtt_alpha) (mul32 rtt (srtt_unit - srtt_alpha)) / srtt_unit

-- The first part of generate_bandwidth: app_limited ends once it was delivered.
unfoldable pub end_app_limited : Host → Host
unfolding after
end_app_limited host =
    if not (host.app_limited == 0) && after host.delivered host.app_limited
    then record host { app_limited = 0 }
    else host

-- The second part: a new round starts when the packets in flight at the last start were delivered.
unfoldable pub start_round : Host → Host
unfolding less_equal
start_round host =
    if less_equal host.next_rtt_delivered host.delivered
    then record host { next_rtt_delivered = host.delivered; rtt_round = add32 host.rtt_round 1 }
    else host

-- The last part, with the bandwidth and the round-trip time of the sample.
unfoldable pub feed_sample : Host → RateSample → Host
unfolding filter_get filter_update_max smooth_rtt
feed_sample host rs =
    let delivered = sub32 host.delivered rs.prior_delivered in
    let interval_us = max_of rs.interval_us (host.cur_time - rs.prior_mstamp) in
    let delivery_rate = u32 (u64 (delivered * usec_per_sec) / interval_us) in
    let fed : Host =
      if not rs.is_app_limited || ltb (filter_get host.bw) delivery_rate
      then record host { bw = (filter_update_max host.bw host.rtt_round delivery_rate).0 }
      else host in
    if interval_us == 0
    then host
    else if rs.rtt_us == 0
    then fed
    else record fed { srtt = smooth_rtt fed.srtt rs.rtt_us }

unfoldable pub generate_bandwidth : Host → RateSample → ℕ → Host
unfolding end_app_limited start_round feed_sample
generate_bandwidth host rs newly_delivered =
    let ended = end_app_limited host in
    if newly_delivered == 0
    then ended
    else feed_sample (start_round (record ended { delivered_time = ended.cur_time })) rs
