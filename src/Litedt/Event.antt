-- ===== src/Litedt/Event.antt =====
-- The entry points of src/litedt.c for datagrams and for time, and the start and end of a host.
use liteflow.Base.{
  ℕ, ◌+◌, ◌-◌, ◌*◌, ◌/◌, ◌%◌, ◌^◌, ◌==◌, true, false, not, ltb, leb, min_of, max_of, if◌then◌else◌,
  Option, none, some, List, [], ◌∷◌,
}
use liteflow.Base.Word.{u32_mod, u64, add32}
use liteflow.Config.{Transport}
use liteflow.Host.{Host, usec_per_sec}
use liteflow.Filter.{filter_init}
use liteflow.Ctrl.{ctrl_mod_init, ctrl_time_event}
use liteflow.Messages.{
  Body, ping_req, ping_rsp, data_post, data_ack, connect_req, connect_rsp, close_req, close_rsp,
  connect_rst, connect_data, data_fec, litedt_max_header,
}
use liteflow.Messages.Codec.{Parsed, wrong_packet, ignored, parsed, parse}
use liteflow.Litedt.{
  Engine, Env, Stat, Run, ◌>>=◌, ◌>>◌, return, gets, lift, modify, modify_stat, emit, when,
  on_online,
}
use liteflow.Litedt.Send.{litedt_ping_req, litedt_conn_rst}
use liteflow.Litedt.Table.{release_all_connections}
use liteflow.Litedt.User.{send_interval}
use liteflow.Litedt.Control.{
  get_offline_time, litedt_on_ping_req, litedt_on_ping_rsp, litedt_on_conn_req, litedt_on_conn_rsp,
  litedt_on_close_req, litedt_on_close_rsp, litedt_on_conn_rst,
}
use liteflow.Litedt.Receive.{litedt_on_data_recv, litedt_on_data_fec}
use liteflow.Litedt.Ack.{litedt_on_data_ack}
use liteflow.Litedt.Transmit.{check_retrans_queue, check_transmit_queue}
use liteflow.Litedt.Timer.{idle_interval, check_connection_state}

abbrev pub time_wait_expire : ℕ
time_wait_expire = 120_000_000

abbrev pub ping_retry_wait : ℕ
ping_retry_wait = 1_000_000

-- What every datagram counts.
unfoldable pub count_datagram : Env → ℕ → Engine → Engine
count_datagram env recv_len e = record e {
  host = record e.host { cur_time = env.now };
  stat = record e.stat {
    io_event = add32 e.stat.io_event 1;
    recv_bytes_stat = add32 e.stat.recv_bytes_stat recv_len;
  };
}

-- A handler whose result is not used.
abbrev pub ignoring : Run ℕ → Run ℕ
ignoring m = do ret ← m; return 0

-- The switch of litedt_io_event, for a datagram that passed the checks on its length.
unfoldable pub dispatch : Transport → Env → ℕ → ℕ → Body → Run ℕ
unfolding litedt_on_ping_req litedt_on_ping_rsp litedt_on_conn_req litedt_on_conn_rsp
    litedt_on_data_recv litedt_on_data_ack litedt_on_close_req litedt_on_close_rsp
    litedt_on_conn_rst litedt_on_data_fec
dispatch cfg env recv_len flow (ping_req p) = litedt_on_ping_req cfg env p
dispatch cfg env recv_len flow (ping_rsp p) = litedt_on_ping_rsp cfg env p
dispatch cfg env recv_len flow (connect_req t) = ignoring (litedt_on_conn_req cfg env flow t false)
dispatch cfg env recv_len flow (connect_rsp s) = litedt_on_conn_rsp cfg env flow s
dispatch cfg env recv_len flow (data_post p) = do
  modify_stat (λ s. record s { recv_bytes_data = add32 s.recv_bytes_data recv_len })
  litedt_on_data_recv cfg env flow p
dispatch cfg env recv_len flow (data_ack a) = do
  modify_stat (λ s. record s { recv_bytes_ack = add32 s.recv_bytes_ack recv_len })
  litedt_on_data_ack cfg env flow a
dispatch cfg env recv_len flow (close_req q) = ignoring (litedt_on_close_req env flow q)
dispatch cfg env recv_len flow close_rsp = ignoring (litedt_on_close_rsp env flow)
dispatch cfg env recv_len flow connect_rst = ignoring (litedt_on_conn_rst env flow)
dispatch cfg env recv_len flow (connect_data t p) = do
  status ← litedt_on_conn_req cfg env flow t true
  if status == 0 then litedt_on_data_recv cfg env flow p else return 0
dispatch cfg env recv_len flow (data_fec f) = litedt_on_data_fec cfg env flow f

-- What is done with the datagram after the counting; an error is answered with a reset.
unfoldable pub handle_parsed : Transport → Env → ℕ → Parsed → Run Unit
unfolding dispatch litedt_conn_rst
handle_parsed cfg env recv_len wrong_packet =
    modify_stat (λ s. record s { io_event_wrong_packet = add32 s.io_event_wrong_packet 1 })
handle_parsed cfg env recv_len ignored = return tt
handle_parsed cfg env recv_len (parsed flow body) = do
  ret ← dispatch cfg env recv_len flow body
  when (not (ret == 0)) (litedt_conn_rst env flow)

unfoldable pub litedt_io_event : Transport → Env → (ℕ → ℕ) → ℕ → Run Unit
unfolding count_datagram handle_parsed parse
litedt_io_event cfg env buf recv_len = do
  modify (count_datagram env recv_len)
  handle_parsed cfg env recv_len (parse recv_len buf)

-- The loop that removes flows from TIME_WAIT: what is left, and the next time.
unfoldable pub expire_timewait : ℕ → List (ℕ × ℕ) → ℕ → List (ℕ × ℕ) × ℕ
expire_timewait cur_time [] next_time = ([], next_time)
expire_timewait cur_time ((flow, close_time) ∷ xs) next_time =
    let rest = expire_timewait cur_time xs next_time in
    let expire_time = close_time + time_wait_expire in
    if ltb cur_time expire_time
    then ((flow, close_time) ∷ xs, min_of next_time expire_time)
    else rest

-- The credit that has come up since the last time, in uint32_t. A rate of 0 is a division by 0.
unfoldable pub refill : Transport → ℕ → Host → Option Host
refill cfg cur_time host =
    let interval = max_of (cfg.mtu * usec_per_sec / host.pacing_rate) send_interval in
    let earned = u64 (host.pacing_rate * (cur_time - host.pacing_time)) / usec_per_sec in
    if host.pacing_rate == 0
    then none
    else if leb (host.pacing_time + interval) cur_time
    then some
        (record host { pacing_credit = add32 host.pacing_credit earned; pacing_time = cur_time })
    else some host

-- The part of litedt_time_event for a peer that is online: the time of the next event.
unfoldable pub run_connections : Transport → Env → ℕ → ℕ → Run ℕ
unfolding refill check_connection_state check_retrans_queue check_transmit_queue
run_connections cfg env cur_time next_time = do
  before ← gets (λ e. e.host)
  filled ← lift (refill cfg cur_time before)
  modify (λ e. record e { host = filled })
  modify (λ e.
      let (host, ctrl) = ctrl_time_event cfg e.host e.ctrl in record e { host = host; ctrl = ctrl })
  checked ← check_connection_state cfg env next_time
  readied ← check_retrans_queue cfg env checked
  sent ← check_transmit_queue cfg env readied
  let next = max_of sent (cur_time + send_interval)
  modify (λ e. record e { last_event_time = cur_time; next_event_time = next })
  return next

-- The peer did not answer in time.
unfoldable pub go_offline : Transport → Env → ℕ → Run Unit
unfolding release_all_connections
go_offline cfg env cur_time = do
  modify (λ e. record e { offline_time = get_offline_time cfg cur_time })
  release_all_connections env
  modify (λ e. record e { remote_online = false })
  emit (on_online false)

-- The ping that is due.
unfoldable pub ping_if_due : Env → ℕ → Run Unit
unfolding litedt_ping_req
ping_if_due env cur_time = do
  e ← gets (λ e. e)
  when (leb e.next_ping_time cur_time) (do
    litedt_ping_req env
    modify (λ e. record e { next_ping_time = cur_time + ping_retry_wait }))

-- The time until the next event; none is the return of -1.
unfoldable pub litedt_time_event : Transport → Env → Run (Option ℕ)
unfolding ping_if_due expire_timewait go_offline run_connections
litedt_time_event cfg env = do
  let cur_time = env.now
  modify (λ e. record e { host = record e.host { cur_time = cur_time } })
  e ← gets (λ e. e)
  if e.is_closed then return (some 0) else (do
    ping_if_due env cur_time
    let (left, next_time) = expire_timewait cur_time e.timewait (cur_time + idle_interval)
    modify (λ e. record e { timewait = left })
    if leb e.offline_time cur_time
        then (do go_offline cfg env cur_time; return none)
        else (if not e.remote_online
            then return (some (min_of next_time e.offline_time - cur_time))
            else (do
              next ← run_connections cfg env cur_time (min_of next_time e.offline_time)
              return (some (next - cur_time)))))

-- litedt_clear_stat
abbrev pub no_stat : Stat
no_stat = record {
  send_bytes_stat = 0;
  recv_bytes_stat = 0;
  send_bytes_data = 0;
  recv_bytes_data = 0;
  send_bytes_ack = 0;
  recv_bytes_ack = 0;
  data_packet_post = 0;
  fec_packet_post = 0;
  dup_packet_recv = 0;
  fec_recover = 0;
  send_error = 0;
  time_event_app_limited = 0;
  time_event_rate_limited = 0;
  time_event_cwnd_limited = 0;
  io_event = 0;
  io_event_wrong_packet = 0;
  io_event_reject = 0;
}

-- The host of litedt_init, where no allocation fails.
unfoldable pub init_host : Transport → ℕ → Host
unfolding filter_init
init_host cfg cur_time = record {
  pacing_time = cur_time;
  pacing_credit = 0;
  pacing_rate = cfg.transmit_rate_init;
  snd_cwnd = max_of (2 * (cfg.transmit_rate_init / cfg.mtu)) 4;
  srtt = 0;
  cur_time = cur_time;
  rtt_min = filter_init 10;
  bw = filter_init 10;
  rtt_round = 0;
  next_rtt_delivered = 0;
  inflight = 0;
  inflight_bytes = 0;
  delivered = 1;
  delivered_bytes = 0;
  app_limited = u32_mod - 1;
  delivered_time = cur_time;
  first_tx_time = cur_time;
  retrans_packet_post = 0;
  data_packet_post_succ = 0;
}

unfoldable pub litedt_init : Transport → ℕ → ℕ → Engine
unfolding init_host
litedt_init cfg node_id cur_time =
    let host = init_host cfg cur_time in
    record {
      host = host;
      stat = no_stat;
      ctrl = ctrl_mod_init host;
      node_id = node_id;
      peer_node_id = 0;
      mss = (cfg.mtu - litedt_max_header) % 2 ^ 16;
      remote_online = false;
      is_closed = false;
      ping_id = 0;
      ping_rtt = 0;
      last_event_time = cur_time;
      next_event_time = cur_time;
      prior_ping_time = cur_time;
      next_ping_time = cur_time;
      offline_time = get_offline_time cfg cur_time;
      conns = [];
      retrans_queue = [];
      timewait = [];
      active = [];
      log = [];
    }

unfoldable pub litedt_fini : Env → Run Unit
unfolding release_all_connections
litedt_fini env = do
  release_all_connections env
  modify (λ e. record e { retrans_queue = []; timewait = []; is_closed = true })
