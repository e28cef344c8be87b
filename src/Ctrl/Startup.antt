-- ===== src/Ctrl/Startup.antt =====
-- The end of STARTUP over whole histories of events. Between two events the rest of the program may
-- change the host in any way, so each event brings the host that it finds.
use liteflow.Base.{◌≤◌, ◌≡◌, ◌≢◌, arith, true, List, [], ◌∷◌, leb, if◌then◌else◌}
use liteflow.Config.{Transport}
use liteflow.Host.{Host, RateSample}
use liteflow.Ctrl.{
  Ctrl, startup, ctrl_mod_init, ctrl_time_event, ctrl_io_event, check_full_bw_reached, check_drain,
  enter_drain, leave_drain, mark_app_limited, update_min_rtt, keep_min_rtt, enter_probe_rtt,
  run_probe_rtt, check_probe_rtt_done, feed_rtt_min, filter_expired,
}
use liteflow.Ctrl.Modes.{ctrl_time_event-TimeStep, ctrl_io_event-IoStep}

-- A call of ctrl_time_event, or of ctrl_io_event with its rate sample.
pub data Event : Type 0 where
  round : Host → Event
  acked : Host → RateSample → Event

abbrev pub handle : Transport → Event → Ctrl → Ctrl
handle cfg (round host) c = (ctrl_time_event cfg host c).1
handle cfg (acked host rs) c = (ctrl_io_event cfg host c rs).1

pub handle_all : Transport → List Event → Ctrl → Ctrl
handle_all cfg [] c = c
handle_all cfg (e ∷ es) c = handle_all cfg es (handle cfg e c)

-- The flag full_bw_reached is set exactly when three rounds have passed with no growth, the counter
-- stays in its two bits, and no other mode than STARTUP is taken before.
pub record IsValid (c : Ctrl) : Type 0 where
  pub counted : c.full_bw_cnt ≤ 3
  pub reached : c.full_bw_reached ≡ leb 3 c.full_bw_cnt
  pub gated : c.bbr_mode ≢ startup → c.full_bw_reached ≡ true

-- The bandwidth fields that the rest of an event leaves alone.
abbrev SameBw : Ctrl → Ctrl → Type 0
SameBw c d = (d.full_bw_cnt ≡ c.full_bw_cnt) × (d.full_bw_reached ≡ c.full_bw_reached)

ctrl_time_event_bw :
    (cfg : Transport) (host : Host) (c : Ctrl) → SameBw c (ctrl_time_event cfg host c).1
unfolding ctrl_time_event check_drain enter_drain leave_drain mark_app_limited
ctrl_time_event_bw cfg host c = ground arith

check_probe_rtt_done_bw :
    (cfg : Transport) (host : Host) (c : Ctrl) → SameBw c (check_probe_rtt_done cfg host c).1
unfolding check_probe_rtt_done
check_probe_rtt_done_bw cfg host c = ground arith

run_probe_rtt_bw :
    (cfg : Transport) (host : Host) (c : Ctrl) → SameBw c (run_probe_rtt cfg host c).1
unfolding run_probe_rtt
run_probe_rtt_bw cfg host c = ground (
  arith,
  check_probe_rtt_done_bw cfg (mark_app_limited host)
      (if c.round_start then record c { probe_rtt_round_done = true } else c),
)

update_min_rtt_bw :
    (cfg : Transport) (host : Host) (c : Ctrl) (rs : RateSample)
    → SameBw c (update_min_rtt cfg host c rs).1
unfolding update_min_rtt enter_probe_rtt keep_min_rtt
update_min_rtt_bw cfg host c rs =
    let fed = feed_rtt_min host rs in
    let expired = filter_expired fed c in
    ground (
      arith,
      run_probe_rtt_bw cfg fed (enter_probe_rtt cfg fed (keep_min_rtt fed c rs expired) expired),
    )

-- The counting step: the flag is kept once it is set.
check_full_bw_step :
    (host : Host) (c : Ctrl) (rs : RateSample)
    → c.full_bw_cnt ≤ 3
    → c.full_bw_reached ≡ leb 3 c.full_bw_cnt
    → let d = check_full_bw_reached host c rs in
      (d.full_bw_cnt ≤ 3)
      × (d.full_bw_reached ≡ leb 3 d.full_bw_cnt)
      × (c.full_bw_reached ≡ true → d.full_bw_reached ≡ true)
unfolding check_full_bw_reached
check_full_bw_step host c rs h k = ground arith

ctrl_io_event_bw :
    (cfg : Transport) (host : Host) (c : Ctrl) (rs : RateSample)
    → SameBw (check_full_bw_reached host c rs) (ctrl_io_event cfg host c rs).1
unfolding ctrl_io_event
ctrl_io_event_bw cfg host c rs = update_min_rtt_bw cfg host (check_full_bw_reached host c rs) rs

handle-IsValid : (cfg : Transport) (e : Event) (c : Ctrl) → IsValid c → IsValid (handle cfg e c)
handle-IsValid cfg (round host) c v =
    ground (arith, ctrl_time_event_bw cfg host c, ctrl_time_event-TimeStep cfg host c)
handle-IsValid cfg (acked host rs) c v = ground (
  arith,
  ctrl_io_event_bw cfg host c rs,
  check_full_bw_step host c rs,
  ctrl_io_event-IoStep cfg host c rs,
)

handle_all-IsValid :
    (cfg : Transport) (es : List Event) (c : Ctrl) → IsValid c → IsValid (handle_all cfg es c)
unfolding handle_all
handle_all-IsValid cfg [] c v = v
handle_all-IsValid cfg (e ∷ es) c v =
    handle_all-IsValid cfg es (handle cfg e c) (handle-IsValid cfg e c v)

ctrl_mod_init-IsValid : (host : Host) → IsValid (ctrl_mod_init host)
unfolding ctrl_mod_init
ctrl_mod_init-IsValid host = ground arith

-- After any sequence of events from ctrl_mod_init, with any hosts, the round counter stays in its
-- two bits, full_bw_reached is set exactly when it stands at three, and every mode but STARTUP is
-- reached only with full_bw_reached set.
pub handle_all-init-IsValid :
    (cfg : Transport) (host : Host) (es : List Event)
    → IsValid (handle_all cfg es (ctrl_mod_init host))
handle_all-init-IsValid cfg host es =
    handle_all-IsValid cfg es (ctrl_mod_init host) (ctrl_mod_init-IsValid host)

handle_past_startup :
    (cfg : Transport) (e : Event) (c : Ctrl)
    → c.bbr_mode ≢ startup
    → (handle cfg e c).bbr_mode ≢ startup
handle_past_startup cfg (round host) c n = ground (arith, ctrl_time_event-TimeStep cfg host c)
handle_past_startup cfg (acked host rs) c n = ground (arith, ctrl_io_event-IoStep cfg host c rs)

-- Once STARTUP is left, no sequence of events brings it back.
pub handle_all_past_startup :
    (cfg : Transport) (es : List Event) (c : Ctrl)
    → c.bbr_mode ≢ startup
    → (handle_all cfg es c).bbr_mode ≢ startup
unfolding handle_all
handle_all_past_startup cfg [] c n = n
handle_all_past_startup cfg (e ∷ es) c n =
    handle_all_past_startup cfg es (handle cfg e c) (handle_past_startup cfg e c n)
