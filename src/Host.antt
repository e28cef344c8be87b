-- ===== src/Host.antt =====
-- The state of one peer, struct _litedt_host of src/litedt.h: the fields that pacing, congestion
-- control and delivery accounting read and write (the last two are of its stat), with the rate sample of src/retrans.h. Times are
-- microseconds of the monotonic clock, so they are never negative.
use liteflow.Base.{ℕ, Bool}
use liteflow.Filter.{Filter}

pub record Host : Type 0 where
  pub pacing_time : ℕ
  pub pacing_credit : ℕ
  pub pacing_rate : ℕ
  pub snd_cwnd : ℕ
  pub srtt : ℕ
  pub cur_time : ℕ
  pub rtt_min : Filter
  pub bw : Filter
  pub rtt_round : ℕ
  pub next_rtt_delivered : ℕ
  pub inflight : ℕ
  pub inflight_bytes : ℕ
  pub delivered : ℕ
  pub delivered_bytes : ℕ
  pub app_limited : ℕ
  pub delivered_time : ℕ
  pub first_tx_time : ℕ
  pub retrans_packet_post : ℕ
  pub data_packet_post_succ : ℕ

pub record RateSample : Type 0 where
  pub prior_mstamp : ℕ
  pub prior_delivered : ℕ
  pub delivered : ℕ
  pub interval_us : ℕ
  pub rtt_us : ℕ
  pub is_app_limited : Bool

abbrev pub usec_per_sec : ℕ
usec_per_sec = 1_000_000
