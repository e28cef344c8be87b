-- ===== src/Retrans/Examples.antt =====
-- One connection with two packets in flight.
use liteflow.Base.{
  ℕ, ◌+◌, ◌-◌, ◌≡◌, ◌≤◌, arith, true, false, some, none, List, [], ◌∷◌, refl, min_of, max_of,
}
use liteflow.Base.Word.{u32_mod}
use liteflow.Samples.{config, host}
use liteflow.Host.{RateSample}
use liteflow.Seq.{seq_cmp}
use liteflow.Treemap.Shape.{Returns}
use liteflow.Retrans.{
  Packet, Retrans, TimerQueue, find_retrans, out_of_memory, create_packet_entry, retrans_checkpoint,
}
use liteflow.Retrans.Events.{retrans_time_event, retrans_mod_fini, generate_bandwidth, smooth_rtt}
use liteflow.Retrans.Account.{
  Accounted, Checked, create_packet_entry-Accounted, create_packet_entry_leaks,
  retrans_checkpoint-Checked, retrans_mod_fini_wraps,
}
use liteflow.Retrans.Waiting.{IsQueued, FiredUnless, retrans_time_event-Fired}
use liteflow.Retrans.Rate.{BandwidthStep, smooth_rtt_between, generate_bandwidth-BandwidthStep}

abbrev packet : ℕ → ℕ → Packet
packet seq time = record {
  send_time = 59_900_000;
  retrans_time = time;
  delivered_time = 59_890_000;
  first_tx_time = 59_800_000;
  delivered = 100;
  seq = seq;
  length = 1000;
  fec_seq = 0;
  fec_index = 0;
  is_ready = false;
  is_app_limited = false;
  retrans_round = 0;
}

abbrev two_packets : Retrans
two_packets = record {
  packet_list = (5000, packet 5000 59_990_000) ∷ (6000, packet 6000 60_010_000) ∷ [];
  waiting_queue = 5000 ∷ 6000 ∷ [];
}

-- A queue of keys without order.
abbrev keys : TimerQueue (List (ℕ × ℕ))
keys = record { push = λ q t key. some (key ∷ q); del = λ q key. [] }

-- Twice its argument, in the place of the product with rto_ratio.
abbrev rto : ℕ → ℕ
rto x = x + x

abbrev empty_sample : RateSample
empty_sample = record {
  prior_mstamp = 0;
  prior_delivered = 0;
  delivered = 0;
  interval_us = 0;
  rtt_us = 0;
  is_app_limited = false;
}

abbrev full_sample : RateSample
full_sample = record {
  prior_mstamp = 59_950_000;
  prior_delivered = 110;
  delivered = 0;
  interval_us = 40_000;
  rtt_us = 25_000;
  is_app_limited = false;
}

two_packets-Accounted : Accounted 4 4000 host two_packets
two_packets-Accounted = ground arith

two_packets-IsQueued : IsQueued 0 two_packets
unfolding seq_cmp
two_packets-IsQueued = record {
  waiting = (omega arith, (omega arith, tt));
  distinct = ((omega arith, tt), (tt, tt));
}

third_absent : find_retrans two_packets 7000 ≡ none
unfolding find_retrans seq_cmp
third_absent = refl

create_packet_entry-Accounted_example :
    Returns
      (create_packet_entry config rto 60_000_000 true host two_packets 7000 800 0 0)
      (λ (host', rt', ret). Accounted 4 4000 host' rt')
create_packet_entry-Accounted_example =
    create_packet_entry-Accounted config rto 60_000_000 host two_packets 7000 800 0 0 4 4000
      (omega arith) two_packets-Accounted

create_packet_entry_leaks_example :
    Returns
      (create_packet_entry config rto 60_000_000 false host two_packets 7000 800 0 0)
      (λ (host', rt', ret).
        (ret ≡ out_of_memory) × (rt' ≡ two_packets) × Accounted (4 + 1) (4000 + 800) host' rt')
create_packet_entry_leaks_example =
    create_packet_entry_leaks config rto 60_000_000 host two_packets 7000 800 0 0 4 4000
      (omega arith) two_packets-Accounted (ground arith) third_absent

retrans_checkpoint-Checked_example :
    Returns
      (retrans_checkpoint keys 1 (λ seq. 60_000_000) 6000 (host, two_packets, [], empty_sample))
      (Checked keys 1 6000 4 4000 two_packets)
retrans_checkpoint-Checked_example =
    retrans_checkpoint-Checked keys 1 (λ seq. 60_000_000) 6000 4 4000 host two_packets []
      empty_sample two_packets-Accounted

retrans_mod_fini_wraps_example :
    let (host', rt', q') = retrans_mod_fini keys 1 host two_packets [] in
    Accounted 4 4000 host' rt' × (host'.app_limited ≡ u32_mod - 2)
retrans_mod_fini_wraps_example =
    retrans_mod_fini_wraps keys 1 host two_packets [] 4 4000 two_packets-Accounted (ground arith)
      (omega arith) (omega arith)

retrans_time_event-Fired_example :
    Returns
      (retrans_time_event keys 1 false 60_000_000 two_packets [])
      (FiredUnless keys 1 false 60_000_000 two_packets [])
retrans_time_event-Fired_example =
    retrans_time_event-Fired keys 1 false 60_000_000 two_packets [] two_packets-IsQueued

smooth_rtt_between_example :
    (min_of 30_000 25_000 ≤ smooth_rtt 30_000 25_000)
    × (smooth_rtt 30_000 25_000 ≤ max_of 30_000 25_000)
smooth_rtt_between_example =
    smooth_rtt_between 30_000 25_000 (ground arith) (omega arith) (omega arith)

generate_bandwidth-BandwidthStep_example :
    BandwidthStep 10 host (generate_bandwidth host full_sample 10)
generate_bandwidth-BandwidthStep_example = generate_bandwidth-BandwidthStep host full_sample 10
