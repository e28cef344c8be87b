-- ===== src/Ctrl.antt =====
-- The BBR-style congestion control of src/ctrl.c and src/ctrl.h. Each function takes the transport
-- settings, the host and the controller, and returns those of the two that it writes. A product is
-- reduced modulo 2^64 or 2^32 where C computes it in uint64_t or uint32_t. Debug output leaves no
-- trace, and the assertion on a bad mode is met by the type of the modes.
pub mod Rate
pub mod Modes
pub mod Startup
mod Examples
use liteflow.Base.{
  ℕ, ◌+◌, ◌-◌, ◌*◌, ◌/◌, ◌%◌, ◌^◌, Bool, true, false, not, ◌&&◌, ◌||◌, ltb, leb, ◌==◌,
  if◌then◌else◌, max_of, min_of, or_else,
}
use liteflow.Base.Word.{u32, u64, add32, mul32}
use liteflow.Base.Int.{ℤ, pos, sub_ℕ, ltb_add}
use liteflow.Config.{Transport}
use liteflow.Filter.{Filter, filter_get, filter_reset, filter_update_min}
use liteflow.Host.{Host, RateSample, usec_per_sec}

pub data BbrMode : Type 0 where
  startup drain probe_bw probe_rtt : BbrMode

pub record Ctrl : Type 0 where
  pub bbr_mode : BbrMode
  pub prior_rtt_round : ℕ
  pub full_bw : ℕ
  pub full_bdp : ℕ
  pub min_rtt_us : ℕ
  pub min_rtt_stamp : ℤ
  pub probe_rtt_done_stamp : ℕ
  pub probe_rtt_cwnd_target : ℕ
  pub probe_rtt_round_done : Bool
  pub prior_bw : ℕ
  pub full_bw_reached : Bool
  pub full_bw_cnt : ℕ
  pub round_start : Bool

abbrev pub bbr_unit : ℕ
bbr_unit = 256

abbrev pub bbr_high_gain : ℕ
bbr_high_gain = bbr_unit * 2885 / 1000 + 1

abbrev pub bbr_drain_gain : ℕ
bbr_drain_gain = bbr_unit * 1000 / 2885

abbrev pub bbr_probe_rtt_gain : ℕ
bbr_probe_rtt_gain = bbr_unit / 2

abbrev pub bbr_cwnd_gain : ℕ
bbr_cwnd_gain = bbr_unit * 2

abbrev pub bbr_full_bw_thresh : ℕ
bbr_full_bw_thresh = bbr_unit * 5 / 4

abbrev pub bbr_cwnd_min_target : ℕ
bbr_cwnd_min_target = 4

abbrev pub bbr_full_bw_cnt : ℕ
bbr_full_bw_cnt = 3

abbrev pub bbr_probe_rtt_mode_us : ℕ
bbr_probe_rtt_mode_us = 200_000

abbrev pub bbr_min_rtt_win_sec : ℕ
bbr_min_rtt_win_sec = 10

abbrev pub bbr_bdp_min_rtt : ℕ
bbr_bdp_min_rtt = 1500

abbrev pub aggregation_time : ℕ
aggregation_time = 20_000

-- bbr_pacing_gain[i], for i below 8.
abbrev pub bbr_pacing_gain : ℕ → ℕ
bbr_pacing_gain i =
    if i == 0 then bbr_unit * 5 / 4 else if i == 1 then bbr_unit * 3 / 4 else bbr_unit

unfoldable pub ctrl_mod_init : Host → Ctrl
ctrl_mod_init host =
    let cur_time_s = host.cur_time / usec_per_sec in
    record {
      bbr_mode = startup;
      prior_rtt_round = 0xffff_ffff;
      full_bw = 0;
      full_bdp = 0;
      min_rtt_us = 0;
      min_rtt_stamp = sub_ℕ cur_time_s (bbr_min_rtt_win_sec + 1);
      probe_rtt_done_stamp = 0;
      probe_rtt_cwnd_target = 0;
      probe_rtt_round_done = false;
      prior_bw = 0;
      full_bw_reached = false;
      full_bw_cnt = 0;
      round_start = false;
    }

unfoldable pub get_bw : Transport → Host → ℕ
unfolding filter_get
get_bw cfg host = or_else (filter_get host.bw) (cfg.transmit_rate_init / cfg.mtu)

unfoldable pub get_bdp : Transport → Host → ℕ → ℕ
unfolding filter_get
get_bdp cfg host bw =
    let rtt_min = or_else (filter_get host.rtt_min) cfg.max_rtt in
    let rtt_min' = if ltb rtt_min bbr_bdp_min_rtt then bbr_bdp_min_rtt else rtt_min in
    u32 (u64 (bw * rtt_min') / usec_per_sec)

unfoldable pub get_ack_aggregation_cwnd : ℕ → ℕ
get_ack_aggregation_cwnd bw = u32 (u64 (bw * aggregation_time) / usec_per_sec)

unfoldable pub get_pacing_rate_fec : Transport → ℕ → ℕ
get_pacing_rate_fec cfg pacing_rate =
    if cfg.fec_group_size == 0 then 0 else pacing_rate / cfg.fec_group_size

-- (uint32_t)(a * gain >> BBR_SCALE), computed in uint64_t.
unfoldable pub scaled : ℕ → ℕ → ℕ
scaled a gain = u32 (u64 (a * gain) / 2 ^ 8)

-- The two values that the switch of update_pacing_rate assigns: pacing_rate and snd_cwnd.
unfoldable pub gains : BbrMode → ℕ → ℕ → ℕ → ℕ → ℕ × ℕ
gains startup rtt_round bw_bytes cwnd agg =
    (scaled bw_bytes bbr_high_gain, scaled (u64 (cwnd + agg)) bbr_high_gain)
gains drain rtt_round bw_bytes cwnd agg =
    (scaled bw_bytes bbr_drain_gain, scaled cwnd bbr_high_gain)
gains probe_bw rtt_round bw_bytes cwnd agg =
    (scaled bw_bytes (bbr_pacing_gain (rtt_round % 8)), scaled (u64 (cwnd + agg)) bbr_cwnd_gain)
gains probe_rtt rtt_round bw_bytes cwnd agg =
    (scaled bw_bytes bbr_unit, scaled cwnd bbr_probe_rtt_gain)

-- host->pacing_rate += get_pacing_rate_fec(ctrl, host->pacing_rate)
unfoldable pub with_fec : Transport → ℕ → ℕ
with_fec cfg rate = add32 rate (get_pacing_rate_fec cfg rate)

unfoldable pub update_pacing_rate : Transport → Host → Ctrl → Host
update_pacing_rate cfg host ctrl =
    let bw = max_of (get_bw cfg host) (cfg.transmit_rate_min / cfg.mtu) in
    let cwnd = max_of (get_bdp cfg host bw) bbr_cwnd_min_target in
    let bw_bytes = u64 (bw * cfg.mtu) in
    let (rate, window) =
      gains ctrl.bbr_mode host.rtt_round bw_bytes cwnd (get_ack_aggregation_cwnd bw) in
    record host { pacing_rate = with_fec cfg rate; snd_cwnd = window }

unfoldable pub pacing_rate_postcheck : Transport → Host → Host
pacing_rate_postcheck cfg host = record host {
  pacing_rate = min_of (max_of host.pacing_rate cfg.transmit_rate_min) cfg.transmit_rate_max;
}

-- host->app_limited = (host->delivered + host->inflight) ? : 1
unfoldable pub mark_app_limited : Host → Host
mark_app_limited host = record host { app_limited = or_else (add32 host.delivered host.inflight) 1 }

-- The first test of check_drain: STARTUP ends once the full bandwidth is reached.
unfoldable pub enter_drain : Transport → Host → Ctrl → Ctrl
enter_drain cfg host ctrl = elim ctrl.bbr_mode [
  | startup ↦
      if ctrl.full_bw_reached
      then record ctrl { bbr_mode = drain; full_bdp = get_bdp cfg host ctrl.full_bw }
      else ctrl
  | _ ↦ ctrl
]

-- The second test: DRAIN ends once the packets in flight are within the bandwidth-delay product.
-- Here cwnd is uint32_t, and so is its product with the gain.
unfoldable pub leave_drain : Transport → Host → Ctrl → Host × Ctrl
leave_drain cfg host ctrl = elim ctrl.bbr_mode [
  | drain ↦
      let limited = mark_app_limited host in
      if leb limited.inflight ctrl.full_bdp
      then (let cwnd =
            add32 (max_of ctrl.full_bdp bbr_cwnd_min_target)
              (get_ack_aggregation_cwnd ctrl.full_bw) in
          (
            record limited {
              pacing_rate = with_fec cfg (mul32 ctrl.full_bw cfg.mtu);
              snd_cwnd = mul32 cwnd bbr_cwnd_gain / 2 ^ 8;
            },
            record ctrl { bbr_mode = probe_bw },
          ))
      else (limited, ctrl)
  | _ ↦ (host, ctrl)
]

unfoldable pub check_drain : Transport → Host → Ctrl → Host × Ctrl
check_drain cfg host ctrl = leave_drain cfg host (enter_drain cfg host ctrl)

unfoldable pub ctrl_time_event : Transport → Host → Ctrl → Host × Ctrl
ctrl_time_event cfg host ctrl =
    if host.rtt_round == ctrl.prior_rtt_round
    then (host, ctrl)
    else (let (drained, ctrl') = check_drain cfg host (record ctrl { round_start = true }) in
        let paced = pacing_rate_postcheck cfg (update_pacing_rate cfg drained ctrl') in
        (paced, record ctrl' { prior_rtt_round = paced.rtt_round }))

unfoldable pub check_full_bw_reached : Host → Ctrl → RateSample → Ctrl
unfolding filter_get
check_full_bw_reached host ctrl rs =
    let bw_thresh = u32 (u64 (ctrl.full_bw * bbr_full_bw_thresh) / 2 ^ 8) in
    let cnt = (ctrl.full_bw_cnt + 1) % 4 in
    if ctrl.full_bw_reached || not ctrl.round_start || rs.is_app_limited
    then ctrl
    else if leb bw_thresh (filter_get host.bw)
    then record ctrl { full_bw = filter_get host.bw; full_bw_cnt = 0 }
    else record ctrl { full_bw_cnt = cnt; full_bw_reached = leb bbr_full_bw_cnt cnt }

unfoldable pub check_probe_rtt_done : Transport → Host → Ctrl → Host × Ctrl
check_probe_rtt_done cfg host ctrl =
    let cwnd = u64 (
      max_of (get_bdp cfg host ctrl.prior_bw) bbr_cwnd_min_target
      + get_ack_aggregation_cwnd ctrl.prior_bw) in
    let rate = with_fec cfg (mul32 ctrl.prior_bw cfg.mtu) in
    if not (ctrl.probe_rtt_done_stamp == 0) && ltb ctrl.probe_rtt_done_stamp host.cur_time
    then (
      pacing_rate_postcheck cfg
          (record host { pacing_rate = rate; snd_cwnd = scaled cwnd bbr_cwnd_gain }),
      record ctrl { min_rtt_stamp = pos (host.cur_time / usec_per_sec); bbr_mode = probe_bw },
    )
    else (host, ctrl)

-- The first part of update_min_rtt feeds the round-trip time to the minimum filter.
unfoldable pub feed_rtt_min : Host → RateSample → Host
unfolding filter_get
feed_rtt_min host rs =
    let now = u32 (host.cur_time / usec_per_sec) in
    if rs.rtt_us == 0
    then host
    else if filter_get host.rtt_min == 0
    then record host { rtt_min = (filter_reset host.rtt_min now rs.rtt_us).0 }
    else record host { rtt_min = (filter_update_min host.rtt_min now rs.rtt_us).0 }

unfoldable pub filter_expired : Host → Ctrl → Bool
filter_expired host ctrl =
    ltb_add ctrl.min_rtt_stamp bbr_min_rtt_win_sec (host.cur_time / usec_per_sec)

-- The second part keeps the smallest round-trip time of the window.
unfoldable pub keep_min_rtt : Host → Ctrl → RateSample → Bool → Ctrl
keep_min_rtt host ctrl rs expired =
    if not (rs.rtt_us == 0) && (ltb rs.rtt_us ctrl.min_rtt_us || expired)
    then record ctrl { min_rtt_us = rs.rtt_us; min_rtt_stamp = pos (host.cur_time / usec_per_sec) }
    else ctrl

-- The third part enters PROBE_RTT from PROBE_BW when the window has expired.
unfoldable pub enter_probe_rtt : Transport → Host → Ctrl → Bool → Ctrl
unfolding filter_get
enter_probe_rtt cfg host ctrl expired = elim ctrl.bbr_mode [
  | probe_bw ↦
      let bw = filter_get host.bw in
      let cwnd = max_of (get_bdp cfg host bw) bbr_cwnd_min_target in
      if expired
      then record ctrl {
        bbr_mode = probe_rtt;
        prior_bw = bw;
        probe_rtt_cwnd_target = scaled cwnd bbr_probe_rtt_gain;
        probe_rtt_done_stamp = 0;
      }
      else ctrl
  | _ ↦ ctrl
]

-- The last part runs the PROBE_RTT mode and leaves it.
unfoldable pub run_probe_rtt : Transport → Host → Ctrl → Host × Ctrl
run_probe_rtt cfg host ctrl = elim ctrl.bbr_mode [
  | probe_rtt ↦
      let limited = mark_app_limited host in
      let ctrl' = if ctrl.round_start then record ctrl { probe_rtt_round_done = true } else ctrl in
      if ctrl.probe_rtt_done_stamp == 0 && leb limited.inflight ctrl.probe_rtt_cwnd_target
      then (
        record limited { next_rtt_delivered = limited.delivered },
        record ctrl {
          probe_rtt_done_stamp = limited.cur_time + bbr_probe_rtt_mode_us;
          probe_rtt_round_done = false;
        },
      )
      else if not (ctrl.probe_rtt_done_stamp == 0)
      then (if ctrl'.probe_rtt_round_done
          then check_probe_rtt_done cfg limited ctrl'
          else (limited, ctrl'))
      else (limited, ctrl)
  | _ ↦ (host, ctrl)
]

unfoldable pub update_min_rtt : Transport → Host → Ctrl → RateSample → Host × Ctrl
update_min_rtt cfg host ctrl rs =
    let fed = feed_rtt_min host rs in
    let expired = filter_expired fed ctrl in
    run_probe_rtt cfg fed (enter_probe_rtt cfg fed (keep_min_rtt fed ctrl rs expired) expired)

unfoldable pub ctrl_io_event : Transport → Host → Ctrl → RateSample → Host × Ctrl
ctrl_io_event cfg host ctrl rs =
    let (host', ctrl') = update_min_rtt cfg host (check_full_bw_reached host ctrl rs) rs in
    (host', record ctrl' { round_start = false })
