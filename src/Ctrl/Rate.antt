-- ===== src/Ctrl/Rate.antt =====
-- The pacing rate and the window that the controller hands to the host.
use liteflow.Base.{ℕ, ◌+◌, ◌*◌, ◌^◌, ◌≤◌, ◌<◌, ◌≢◌, arith, true, if◌then◌else◌}
use liteflow.Config.{Transport}
use liteflow.Host.{Host, RateSample}
use liteflow.Ctrl.{
  Ctrl, BbrMode, startup, drain, probe_bw, probe_rtt, scaled, gains, update_pacing_rate,
  pacing_rate_postcheck, check_drain, ctrl_time_event, check_probe_rtt_done, ctrl_io_event,
  update_min_rtt, run_probe_rtt, feed_rtt_min, mark_app_limited,
}

-- The pacing rate is within the configured limits.
pub record RateOk (cfg : Transport) (host : Host) : Type 0 where
  pub floor : cfg.transmit_rate_min ≤ host.pacing_rate
  pub ceiling : host.pacing_rate ≤ cfg.transmit_rate_max

pub pacing_rate_postcheck-RateOk :
    (cfg : Transport) (host : Host)
    → cfg.transmit_rate_min ≤ cfg.transmit_rate_max
    → RateOk cfg (pacing_rate_postcheck cfg host)
unfolding pacing_rate_postcheck
pacing_rate_postcheck-RateOk cfg host h = ground arith

-- With a configured minimum at most the maximum, a time event in a new round-trip round leaves the
-- pacing rate within the two limits, whatever bandwidth and round-trip time were measured and
-- whichever mode the controller was in.
pub ctrl_time_event-RateOk :
    (cfg : Transport) (host : Host) (ctrl : Ctrl)
    → cfg.transmit_rate_min ≤ cfg.transmit_rate_max
    → host.rtt_round ≢ ctrl.prior_rtt_round
    → RateOk cfg (ctrl_time_event cfg host ctrl).0
unfolding ctrl_time_event
ctrl_time_event-RateOk cfg host ctrl h new =
    let (drained, ctrl') = check_drain cfg host (record ctrl { round_start = true }) in
    ground (arith, pacing_rate_postcheck-RateOk cfg (update_pacing_rate cfg drained ctrl') h)

check_probe_rtt_done-RateOk :
    (cfg : Transport) (host : Host) (ctrl : Ctrl)
    → cfg.transmit_rate_min ≤ cfg.transmit_rate_max
    → RateOk cfg host
    → RateOk cfg (check_probe_rtt_done cfg host ctrl).0
unfolding check_probe_rtt_done pacing_rate_postcheck
check_probe_rtt_done-RateOk cfg host ctrl h k = ground arith

run_probe_rtt-RateOk :
    (cfg : Transport) (host : Host) (ctrl : Ctrl)
    → cfg.transmit_rate_min ≤ cfg.transmit_rate_max
    → RateOk cfg host
    → RateOk cfg (run_probe_rtt cfg host ctrl).0
unfolding run_probe_rtt mark_app_limited
run_probe_rtt-RateOk cfg host ctrl h k = ground (
  arith,
  check_probe_rtt_done-RateOk cfg (mark_app_limited host)
      (if ctrl.round_start then record ctrl { probe_rtt_round_done = true } else ctrl) h,
)

feed_rtt_min-RateOk :
    (cfg : Transport) (host : Host) (rs : RateSample)
    → RateOk cfg host
    → RateOk cfg (feed_rtt_min host rs)
unfolding feed_rtt_min
feed_rtt_min-RateOk cfg host rs k = ground arith

-- An acknowledgement keeps the pacing rate within the limits, also where it ends PROBE_RTT and
-- restores the rate that was measured before.
pub ctrl_io_event-RateOk :
    (cfg : Transport) (host : Host) (ctrl : Ctrl) (rs : RateSample)
    → cfg.transmit_rate_min ≤ cfg.transmit_rate_max
    → RateOk cfg host
    → RateOk cfg (ctrl_io_event cfg host ctrl rs).0
unfolding ctrl_io_event update_min_rtt
ctrl_io_event-RateOk cfg host ctrl rs h k =
    run_probe_rtt-RateOk cfg (feed_rtt_min host rs) _ h (feed_rtt_min-RateOk cfg host rs k)

-- A window that the switch assigns is at least 2 packets, as long as the product does not overflow.
pub gains_window_pos :
    (mode : BbrMode) (rtt_round bw_bytes cwnd agg : ℕ)
    → 4 ≤ cwnd
    → (cwnd + agg) * 739 < 2 ^ 40
    → 2 ≤ (gains mode rtt_round bw_bytes cwnd agg).1
unfolding gains scaled
gains_window_pos startup r b c a h k = omega arith
gains_window_pos drain r b c a h k = omega arith
gains_window_pos probe_bw r b c a h k = omega arith
gains_window_pos probe_rtt r b c a h k = omega arith
