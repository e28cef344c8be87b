-- ===== src/Litedt/Timer.antt =====
-- What src/litedt.c does for a connection when its time has come: probes, acknowledgements, and the
-- retries of the handshake and of the close.
use liteflow.Base.{
  ℕ, zero, suc, ◌+◌, ◌-◌, ◌%◌, ◌==◌, Bool, true, false, not, ◌&&◌, ◌||◌, ltb, leb, min_of,
  if◌then◌else◌, Option, none, some, List, [], ◌∷◌, length,
}
use liteflow.Config.{Transport}
use liteflow.Rbuffer.{rbuf_readable_bytes, rbuf_writable_bytes}
use liteflow.Litedt.{
  Env, Run, ◌>>=◌, ◌>>◌, return, gets, emit, when, rank, Conn, request, established, fin_wait,
  close_wait, closed, on_receive, on_send, mod_conn,
}
use liteflow.Litedt.Send.{litedt_conn_req, litedt_close_req}
use liteflow.Litedt.Table.{release_connection, connection_timeout}
use liteflow.Litedt.Post.{litedt_data_post, litedt_data_ack, conn_fec_post}
use liteflow.Litedt.User.{normal_ack_delay}
use liteflow.Litedt.Receive.{held, reack_delay}
use liteflow.Litedt.Transmit.{is_snd_queue_empty}

abbrev pub zero_window_probes : ℕ
zero_window_probes = 120

abbrev pub keepalive_probes : ℕ
keepalive_probes = 18

abbrev pub keepalive_time : ℕ
keepalive_time = 30_000_000

abbrev pub keepalive_interval : ℕ
keepalive_interval = 5_000_000

abbrev pub slow_ack_delay : ℕ
slow_ack_delay = 60_000_000

abbrev pub idle_interval : ℕ
idle_interval = 1_000_000

unfoldable pub probe_window : Transport → Env → ℕ → Conn → ℕ → Run Unit
unfolding litedt_data_post
probe_window cfg env flow c max_probes = do
  cur_time ← gets (λ e. e.host.cur_time)
  when (ltb c.probes_sent max_probes) (do
    litedt_data_post cfg env flow c.send_seq 0 0 0 false
    mod_conn flow (λ c. record c { probes_sent = (c.probes_sent + 1) % 256 }))
  mod_conn flow (λ c. record c { last_probe_time = cur_time })

-- The time of the next probe, where there is one; -1 is none.
unfoldable pub check_and_send_probes : Transport → Env → ℕ → Conn → Run (Option ℕ)
unfolding is_snd_queue_empty probe_window held
check_and_send_probes cfg env flow c = do
  cur_time ← gets (λ e. e.host.cur_time)
  if leb 3 (rank c.state)
      then return none
      else if is_snd_queue_empty c
      then if leb keepalive_time (cur_time - c.last_sync_time)
        then (do
          when (leb keepalive_interval (cur_time - c.last_probe_time))
              (probe_window cfg env flow c keepalive_probes)
          c' ← held flow
          return (some (c'.last_probe_time + keepalive_interval)))
        else return (some (c.last_sync_time + keepalive_time))
      else if c.swin_size == 0
      then (do
        when (leb idle_interval (cur_time - c.last_probe_time))
            (probe_window cfg env flow c zero_window_probes)
        c' ← held flow
        return (some (c'.last_probe_time + idle_interval)))
      else return none

-- The switch of check_connection_state; the result says whether the connection was released.
unfoldable pub synchronize : Transport → Env → ℕ → Conn → Run Bool
unfolding litedt_conn_req conn_fec_post litedt_data_ack litedt_close_req rbuf_readable_bytes
    release_connection
synchronize cfg env flow c =
    let post =
      when (c.fec_enabled && not (cfg.fec_group_size == 0)) (conn_fec_post cfg env flow c) in
    elim c.state [
      | request ↦ do litedt_conn_req env flow c.tunnel_id; return false
      | established ↦ do post; litedt_data_ack cfg env flow (ltb 0 c.reack_times); return false
      | fin_wait ↦ do post; litedt_close_req env flow c.write_seq; return false
      | close_wait ↦ do litedt_data_ack cfg env flow (ltb 0 c.reack_times); return false
      | closed ↦
          if rbuf_readable_bytes c.recv_buf == 0
          then (do release_connection env flow; return true)
          else return false
    ]

-- The time of the next synchronization, and the acknowledgements that are left.
unfoldable pub plan_sync : ℕ → Conn → Conn
plan_sync cur_time c =
    if ltb 1 c.reack_times
    then record c { reack_times = c.reack_times - 1; next_sync_time = cur_time + reack_delay }
    else record c {
      reack_times = 0;
      next_sync_time = cur_time + (if rank c.state == 1 then slow_ack_delay else normal_ack_delay);
    }

-- The calls of receive_cb and send_cb; the result says whether there was one.
unfoldable pub notify_user : ℕ → Conn → Run Bool
unfolding rbuf_readable_bytes rbuf_writable_bytes
notify_user flow c = do
  let readable =
      if c.notify_recv && not (rank c.state == 2) then rbuf_readable_bytes c.recv_buf else 0
  let writable = if c.notify_send && leb (rank c.state) 1 then rbuf_writable_bytes c.send_buf else 0
  when (ltb 0 readable) (emit (on_receive flow readable))
  when (ltb 0 writable) (emit (on_send flow writable))
  return (ltb 0 readable || ltb 0 writable)

-- timerlist_resched_top
unfoldable pub resched : ℕ → ℕ → Run Unit
resched flow time = mod_conn flow (λ c. record c { event_time = time })

-- The time at which the connection is looked at next.
unfoldable pub next_check : Option ℕ → ℕ → ℕ
next_check none next_sync_time = next_sync_time
next_check (some probe_time) next_sync_time =
    if ltb 0 probe_time && ltb probe_time next_sync_time then probe_time else next_sync_time

-- The end of a round, for a connection that was not released.
unfoldable pub finish_check : ℕ → ℕ → Option ℕ → Run Unit
unfolding held notify_user resched next_check
finish_check flow cur_time probe_time = do
  c ← held flow
  notified ← notify_user flow c
  resched flow (if notified then cur_time + 1 else next_check probe_time c.next_sync_time)

-- One round of the loop of check_connection_state, for the connection at the top.
unfoldable pub check_connection : Transport → Env → ℕ → Conn → Run Unit
unfolding release_connection check_and_send_probes held synchronize plan_sync finish_check
check_connection cfg env flow c = do
  cur_time ← gets (λ e. e.host.cur_time)
  if ltb connection_timeout (cur_time - c.last_sync_time) then release_connection env flow else (do
    probe_time ← check_and_send_probes cfg env flow c
    c' ← held flow
    if ltb cur_time c'.next_sync_time then finish_check flow cur_time probe_time else (do
      released ← synchronize cfg env flow c'
      if released
          then return tt
          else (do mod_conn flow (plan_sync cur_time); finish_check flow cur_time probe_time)))

-- timerlist_top of the connections: one with the earliest time.
abbrev pub earliest_conn : ℕ × Conn → List (ℕ × Conn) → ℕ × Conn
earliest_conn best [] = best
earliest_conn best (x ∷ xs) =
    earliest_conn (if ltb x.1.event_time best.1.event_time then x else best) xs

abbrev pub top_conn : List (ℕ × Conn) → Option (ℕ × Conn)
top_conn [] = none
top_conn (x ∷ xs) = some (earliest_conn x xs)

-- The loop of check_connection_state. A round releases a connection or makes its time later than now,
-- so that the number of connections is enough fuel.
unfoldable pub check_while : ℕ → Transport → Env → Run Unit
unfolding check_connection
check_while zero cfg env = return tt
check_while (suc f) cfg env = do
  e ← gets (λ e. e)
  elim (top_conn e.conns) [
    | none ↦ return tt
    | some (flow, c) ↦
        if ltb e.host.cur_time c.event_time
        then return tt
        else (do check_connection cfg env flow c; check_while f cfg env)
  ]

unfoldable pub check_connection_state : Transport → Env → ℕ → Run ℕ
unfolding check_while
check_connection_state cfg env next_time = do
  conns ← gets (λ e. e.conns)
  check_while (length conns) cfg env
  left ← gets (λ e. e.conns)
  elim (top_conn left) [
    | none ↦ return next_time
    | some (flow, c) ↦ return (min_of next_time c.event_time)
  ]
