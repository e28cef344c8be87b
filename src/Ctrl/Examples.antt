-- ===== src/Ctrl/Examples.antt =====
-- The controller on one configuration, on a host that has just measured a bandwidth.
use liteflow.Base.{◌≢◌, arith, true, false, List, [], ◌∷◌}
use liteflow.Base.Int.{pos}
use liteflow.Host.{RateSample}
use liteflow.Samples.{config, host}
use liteflow.Ctrl.{Ctrl, startup, probe_bw, ctrl_mod_init, ctrl_time_event, ctrl_io_event}
use liteflow.Ctrl.Rate.{RateOk, ctrl_time_event-RateOk, ctrl_io_event-RateOk}
use liteflow.Ctrl.Modes.{TimeStep, IoStep, ctrl_time_event-TimeStep, ctrl_io_event-IoStep}
use liteflow.Ctrl.Startup.{
  Event, round, acked, handle_all, IsValid, handle_all-init-IsValid, handle_all_past_startup,
}

abbrev acknowledged : RateSample
acknowledged = record {
  prior_mstamp = 59_950_000;
  prior_delivered = 110;
  delivered = 10;
  interval_us = 40_000;
  rtt_us = 25_000;
  is_app_limited = false;
}

-- A controller whose minimum of the round-trip time is older than its window.
abbrev steady : Ctrl
steady = record {
  bbr_mode = probe_bw;
  prior_rtt_round = 3;
  full_bw = 480;
  full_bdp = 14;
  min_rtt_us = 24_000;
  min_rtt_stamp = pos 40;
  probe_rtt_done_stamp = 0;
  probe_rtt_cwnd_target = 0;
  probe_rtt_round_done = false;
  prior_bw = 0;
  full_bw_reached = true;
  full_bw_cnt = 3;
  round_start = false;
}

abbrev events : List Event
events = round host ∷ acked host acknowledged ∷ round host ∷ []

ctrl_time_event-RateOk_example : RateOk config (ctrl_time_event config host steady).0
ctrl_time_event-RateOk_example =
    ctrl_time_event-RateOk config host steady (omega arith) (ground arith)

ctrl_io_event-RateOk_example : RateOk config (ctrl_io_event config host steady acknowledged).0
ctrl_io_event-RateOk_example =
    ctrl_io_event-RateOk config host steady acknowledged (omega arith) (ground arith)

ctrl_time_event-TimeStep_example : TimeStep host steady (ctrl_time_event config host steady).1
ctrl_time_event-TimeStep_example = ctrl_time_event-TimeStep config host steady

ctrl_io_event-IoStep_example : IoStep host steady (ctrl_io_event config host steady acknowledged).1
ctrl_io_event-IoStep_example = ctrl_io_event-IoStep config host steady acknowledged

handle_all-init-IsValid_example : IsValid (handle_all config events (ctrl_mod_init host))
handle_all-init-IsValid_example = handle_all-init-IsValid config host events

handle_all_past_startup_example : (handle_all config events steady).bbr_mode ≢ startup
handle_all_past_startup_example = handle_all_past_startup config events steady (ground arith)
