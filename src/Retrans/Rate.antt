-- ===== src/Retrans/Rate.antt =====
-- What an acknowledgement does to the rate state of the host.
use liteflow.Base.{ℕ, ◌≤◌, ◌<◌, ◌≡◌, ◌≢◌, ◌⊎◌, arith, true, max_of, min_of, ◌^◌}
use liteflow.Base.Word.{add32}
use liteflow.Host.{Host, RateSample}
use liteflow.Seq.{less_equal, after}
use liteflow.Retrans.Events.{
  generate_bandwidth, smooth_rtt, end_app_limited, start_round, feed_sample,
}

-- The smoothed round-trip time lies between the old one and the new sample, as long as eight times
-- neither of them overflows.
pub smooth_rtt_between :
    (srtt rtt : ℕ)
    → srtt ≢ 0
    → srtt < 2 ^ 29
    → rtt < 2 ^ 29
    → (min_of srtt rtt ≤ smooth_rtt srtt rtt) × (smooth_rtt srtt rtt ≤ max_of srtt rtt)
unfolding smooth_rtt
smooth_rtt_between srtt rtt n h k = ground arith

-- What generate_bandwidth may do: the application limit is kept or lifted once it was passed; a new
-- round starts exactly when something was newly delivered and the mark of the last round was reached;
-- the smoothed round-trip time and the bandwidth filter change only with a delivery.
pub record BandwidthStep (newly : ℕ) (host host' : Host) : Type 0 where
  pub limit :
      (host'.app_limited ≡ host.app_limited)
      ⊎ ((host.app_limited ≢ 0)
          × (after host.delivered host.app_limited ≡ true)
          × (host'.app_limited ≡ 0))
  pub round :
      ((host'.rtt_round ≡ host.rtt_round)
        × (host'.next_rtt_delivered ≡ host.next_rtt_delivered)
        × ((newly ≡ 0) ⊎ (less_equal host.next_rtt_delivered host.delivered ≢ true)))
      ⊎ ((newly ≢ 0)
          × (less_equal host.next_rtt_delivered host.delivered ≡ true)
          × (host'.rtt_round ≡ add32 host.rtt_round 1)
          × (host'.next_rtt_delivered ≡ host.delivered))
  pub idle : newly ≡ 0 → (host'.srtt ≡ host.srtt) × (host'.bw ≡ host.bw)
  pub counters :
      (host'.inflight ≡ host.inflight)
      × (host'.inflight_bytes ≡ host.inflight_bytes)
      × (host'.delivered ≡ host.delivered)
      × (host'.delivered_bytes ≡ host.delivered_bytes)

feed_sample_keeps :
    (host : Host) (rs : RateSample)
    → let host' = feed_sample host rs in
      (host'.app_limited ≡ host.app_limited)
      × (host'.rtt_round ≡ host.rtt_round)
      × (host'.next_rtt_delivered ≡ host.next_rtt_delivered)
      × (host'.inflight ≡ host.inflight)
      × (host'.inflight_bytes ≡ host.inflight_bytes)
      × (host'.delivered ≡ host.delivered)
      × (host'.delivered_bytes ≡ host.delivered_bytes)
unfolding feed_sample
feed_sample_keeps host rs = ground arith

-- For every host, sample and number of newly delivered packets, generate_bandwidth lifts the application
-- limit only once the delivered count is after it; it starts a new round exactly when something was newly delivered and
-- the mark of the last round was reached; without a delivery it changes neither the smoothed round-trip
-- time nor the bandwidth filter; and it leaves the counters of packets and
-- bytes in flight and delivered alone.
pub generate_bandwidth-BandwidthStep :
    (host : Host) (rs : RateSample) (newly : ℕ)
    → BandwidthStep newly host (generate_bandwidth host rs newly)
unfolding generate_bandwidth end_app_limited start_round
generate_bandwidth-BandwidthStep host rs newly =
    let ended = end_app_limited host in
    ground
      (arith, feed_sample_keeps (start_round (record ended { delivered_time = ended.cur_time })) rs)
