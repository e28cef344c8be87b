-- ===== src/Ctrl/Modes.antt =====
-- The modes of the controller as a state machine.
use liteflow.Base.{◌≤◌, ◌<◌, ◌≡◌, ◌≢◌, ◌⊎◌, arith, true, if◌then◌else◌}
use liteflow.Config.{Transport}
use liteflow.Host.{Host, RateSample}
use liteflow.Ctrl.{
  Ctrl, startup, drain, probe_bw, probe_rtt, ctrl_time_event, ctrl_io_event, check_full_bw_reached,
  check_drain, enter_drain, leave_drain, mark_app_limited, update_min_rtt, keep_min_rtt,
  enter_probe_rtt, run_probe_rtt, check_probe_rtt_done, feed_rtt_min, filter_expired,
}

-- What a time event may do to the mode: STARTUP is left only when the full bandwidth was reached,
-- and PROBE_BW is entered only when the packets in flight fit the bandwidth-delay product.
abbrev pub TimeStep : Host → Ctrl → Ctrl → Type 0
TimeStep host c d =
    (d.bbr_mode ≡ c.bbr_mode)
    ⊎ ((c.bbr_mode ≡ startup) × (c.full_bw_reached ≡ true) × (d.bbr_mode ≡ drain))
    ⊎ ((c.bbr_mode ≡ startup)
        × (c.full_bw_reached ≡ true)
        × (host.inflight ≤ d.full_bdp)
        × (d.bbr_mode ≡ probe_bw))
    ⊎ ((c.bbr_mode ≡ drain) × (host.inflight ≤ d.full_bdp) × (d.bbr_mode ≡ probe_bw))

-- A time event changes the mode only along STARTUP, DRAIN, PROBE_BW, and only when the condition of
-- the step holds.
pub ctrl_time_event-TimeStep :
    (cfg : Transport) (host : Host) (ctrl : Ctrl)
    → TimeStep host ctrl (ctrl_time_event cfg host ctrl).1
unfolding ctrl_time_event check_drain enter_drain leave_drain mark_app_limited
ctrl_time_event-TimeStep cfg host ctrl = ground arith

-- What an acknowledgement may do to the mode.
abbrev pub IoStep : Host → Ctrl → Ctrl → Type 0
IoStep host c d =
    (d.bbr_mode ≡ c.bbr_mode)
    ⊎ ((c.bbr_mode ≡ probe_bw) × (filter_expired host c ≡ true) × (d.bbr_mode ≡ probe_rtt))
    ⊎ ((c.bbr_mode ≡ probe_rtt)
        × (c.probe_rtt_done_stamp ≢ 0)
        × (c.probe_rtt_done_stamp < host.cur_time)
        × (d.bbr_mode ≡ probe_bw))

check_probe_rtt_done_mode :
    (cfg : Transport) (host : Host) (c : Ctrl)
    → let d = (check_probe_rtt_done cfg host c).1 in
      (d.bbr_mode ≡ c.bbr_mode)
      ⊎ ((c.probe_rtt_done_stamp ≢ 0)
          × (c.probe_rtt_done_stamp < host.cur_time)
          × (d.bbr_mode ≡ probe_bw))
unfolding check_probe_rtt_done
check_probe_rtt_done_mode cfg host c = ground arith

run_probe_rtt_mode :
    (cfg : Transport) (host : Host) (c : Ctrl)
    → let d = (run_probe_rtt cfg host c).1 in
      (d.bbr_mode ≡ c.bbr_mode)
      ⊎ ((c.bbr_mode ≡ probe_rtt)
          × (c.probe_rtt_done_stamp ≢ 0)
          × (c.probe_rtt_done_stamp < host.cur_time)
          × (d.bbr_mode ≡ probe_bw))
unfolding run_probe_rtt mark_app_limited
run_probe_rtt_mode cfg host c = ground (
  arith,
  check_probe_rtt_done_mode cfg (mark_app_limited host)
      (if c.round_start then record c { probe_rtt_round_done = true } else c),
)

before_probe_mode :
    (cfg : Transport) (host : Host) (c : Ctrl) (rs : RateSample)
    → let fed = feed_rtt_min host rs in
      let expired = filter_expired fed (check_full_bw_reached host c rs) in
      let d =
        enter_probe_rtt cfg fed
          (keep_min_rtt fed (check_full_bw_reached host c rs) rs expired)
          expired in
      ((d.bbr_mode ≡ c.bbr_mode) × (d.probe_rtt_done_stamp ≡ c.probe_rtt_done_stamp))
      ⊎ ((c.bbr_mode ≡ probe_bw)
          × (filter_expired host c ≡ true)
          × (d.bbr_mode ≡ probe_rtt)
          × (d.probe_rtt_done_stamp ≡ 0))
unfolding enter_probe_rtt keep_min_rtt check_full_bw_reached filter_expired feed_rtt_min
before_probe_mode cfg host c rs = ground arith

feed_rtt_min_time :
    (host : Host) (rs : RateSample) → (feed_rtt_min host rs).cur_time ≡ host.cur_time
unfolding feed_rtt_min
feed_rtt_min_time host rs = ground arith

-- An acknowledgement changes the mode only from PROBE_BW to PROBE_RTT, when the minimum of the
-- round-trip time has expired, and back, when the time set for PROBE_RTT is over.
pub ctrl_io_event-IoStep :
    (cfg : Transport) (host : Host) (ctrl : Ctrl) (rs : RateSample)
    → IoStep host ctrl (ctrl_io_event cfg host ctrl rs).1
unfolding ctrl_io_event update_min_rtt
ctrl_io_event-IoStep cfg host ctrl rs =
    let fed = feed_rtt_min host rs in
    let checked = check_full_bw_reached host ctrl rs in
    let expired = filter_expired fed checked in
    let ready = enter_probe_rtt cfg fed (keep_min_rtt fed checked rs expired) expired in
    ground (
      arith,
      before_probe_mode cfg host ctrl rs,
      run_probe_rtt_mode cfg fed ready,
      feed_rtt_min_time host rs,
    )
