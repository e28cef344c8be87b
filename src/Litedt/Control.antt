-- ===== src/Litedt/Control.antt =====
-- The handlers of src/litedt.c for pings, the handshake and the close of a connection.
use liteflow.Base.{
  ℕ, zero, suc, ◌+◌, ◌-◌, ◌*◌, ◌==◌, Bool, true, false, not, ◌&&◌, ◌||◌, ltb, if◌then◌else◌, none,
  some, [], ◌∷◌,
}
use liteflow.Base.Word.{mul32, u32, add32}
use liteflow.Config.{Transport}
use liteflow.Host.{usec_per_sec}
use liteflow.Rbuffer.{rbuf_readable_bytes, rbuf_window_info}
use liteflow.Messages.{Ping}
use liteflow.Litedt.{
  Engine, Env, Run, ◌>>=◌, ◌>>◌, return, gets, modify, modify_stat, emit, when, rank, Conn, request,
  established, fin_wait, close_wait, closed, on_online, find_connection, mod_conn,
  litedt_mod_evtime, litedt_record_not_found,
}
use liteflow.Litedt.Send.{litedt_ping_rsp, litedt_conn_rsp, litedt_close_rsp, ping_payload}
use liteflow.Litedt.Table.{create_connection, release_connection}
use liteflow.Litedt.Post.{litedt_data_ack}
use liteflow.Litedt.User.{normal_ack_delay, send_interval}

abbrev pub ping_interval : ℕ
ping_interval = 10_000_000

-- memcmp of two digests.
abbrev pub same_bytes : ℕ → (ℕ → ℕ) → (ℕ → ℕ) → Bool
same_bytes zero a b = true
same_bytes (suc n) a b = (a n == b n) && same_bytes n a b

-- validate_token
unfoldable pub validate_token : Env → ℕ → (ℕ → ℕ) → ℕ → (ℕ → ℕ) → Bool
validate_token env node_id payload length token =
    same_bytes 32 token (env.token node_id payload length)

-- check_peer_node_id: whether another peer is expected.
unfoldable pub check_peer_node_id : Engine → ℕ → Bool
check_peer_node_id e node_id = not (e.peer_node_id == 0) && not (e.peer_node_id == node_id)

-- The test of both ping handlers on the time stamp, where it is configured.
unfoldable pub is_expired : Transport → ℕ → ℕ → Bool
is_expired cfg real_time token_time =
    let exp = cfg.token_expire * usec_per_sec in
    not (cfg.token_expire == 0)
    && (ltb (real_time + exp) token_time || ltb (token_time + exp) real_time)

unfoldable pub reject : Run Unit
reject = modify_stat (λ s. record s { io_event_reject = add32 s.io_event_reject 1 })

unfoldable pub litedt_on_ping_req : Transport → Env → Ping → Run ℕ
unfolding is_expired validate_token check_peer_node_id reject litedt_ping_rsp
litedt_on_ping_req cfg env req = do
  e ← gets (λ e. e)
  let payload = ping_payload req.ping_id req.timestamp
  if is_expired cfg env.real_time req.timestamp
        || not (validate_token env req.node_id payload 12 req.token)
      then (do reject; return 0)
      else if check_peer_node_id e req.node_id
      then return 0
      else (do litedt_ping_rsp env req; return 0)

-- The guards of litedt_on_ping_rsp: an answer to the last request from the expected peer.
unfoldable pub is_expected : Engine → Ping → Bool
unfolding check_peer_node_id
is_expected e rsp =
    (rsp.ping_id == e.ping_id)
    && ((rsp.timestamp == e.prior_ping_time)
        && (not (rsp.node_id == 0) && not (check_peer_node_id e rsp.node_id)))

unfoldable pub is_trusted : Transport → Env → Engine → Ping → Bool
unfolding is_expired validate_token
is_trusted cfg env e rsp =
    let temp_token = env.token e.node_id (ping_payload rsp.ping_id rsp.timestamp) 12 in
    not (is_expired cfg env.real_time rsp.timestamp)
    && validate_token env rsp.node_id temp_token 32 rsp.token

-- get_offline_time, with the product in uint32_t.
abbrev pub get_offline_time : Transport → ℕ → ℕ
get_offline_time cfg cur_time = cur_time + mul32 cfg.offline_timeout usec_per_sec

-- The peer has answered.
unfoldable pub accept_ping : Transport → Env → Ping → Engine → Engine
accept_ping cfg env rsp e = record e {
  peer_node_id = if e.peer_node_id == 0 then rsp.node_id else e.peer_node_id;
  ping_id = add32 e.ping_id 1;
  ping_rtt = u32 (env.real_time - rsp.timestamp);
  next_ping_time = e.host.cur_time + ping_interval;
  offline_time = get_offline_time cfg e.host.cur_time;
}

-- The peer was not online before.
unfoldable pub go_online : Env → Run Unit
unfolding litedt_mod_evtime
go_online env = do
  modify (λ e. record e {
    remote_online = true;
    host = record e.host { pacing_time = e.host.cur_time };
  })
  emit (on_online true)
  e ← gets (λ e. e)
  elim e.conns [
    | [] ↦ return tt
    | c ∷ cs ↦ litedt_mod_evtime env none (e.last_event_time + send_interval)
  ]

unfoldable pub litedt_on_ping_rsp : Transport → Env → Ping → Run ℕ
unfolding is_expected is_trusted accept_ping go_online reject
litedt_on_ping_rsp cfg env rsp = do
  e ← gets (λ e. e)
  if not (is_expected e rsp)
      then return 0
      else if not (is_trusted cfg env e rsp)
      then (do reject; return 0)
      else (do
        modify (accept_ping cfg env rsp)
        when (not e.remote_online) (go_online env)
        return 0)

unfoldable pub litedt_on_conn_req : Transport → Env → ℕ → ℕ → Bool → Run ℕ
unfolding create_connection litedt_conn_rsp litedt_data_ack
litedt_on_conn_req cfg env flow tunnel_id no_rsp = do
  conn ← find_connection flow
  elim conn [
    | some c ↦ do litedt_conn_rsp env flow 0; return 0
    | none ↦ do
      ret ← create_connection cfg env flow tunnel_id established
      if not (ret == 0) then (do litedt_conn_rsp env flow ret; return ret) else (do
        when (not no_rsp)
            (do litedt_conn_rsp env flow ret; litedt_data_ack cfg env flow false; return tt)
        return ret)
  ]

-- if (conn->state == CONN_REQUEST) conn->state = CONN_ESTABLISHED
unfoldable pub establish : Conn → Conn
establish c = elim c.state [ request ↦ record c { state = established } | _ ↦ c ]

unfoldable pub litedt_on_conn_rsp : Transport → Env → ℕ → ℕ → Run ℕ
unfolding establish litedt_data_ack release_connection
litedt_on_conn_rsp cfg env flow status = do
  conn ← find_connection flow
  elim conn [
    | none ↦ return litedt_record_not_found
    | some c ↦
        if status == 0
        then (do mod_conn flow establish; litedt_data_ack cfg env flow false; return 0)
        else (do release_connection env flow; return 0)
  ]

-- Whether all bytes before `last_seq` were received.
unfoldable pub is_complete : Conn → ℕ → Bool
unfolding rbuf_readable_bytes rbuf_window_info
is_complete c last_seq =
    add32 (rbuf_window_info c.recv_buf).0 (rbuf_readable_bytes c.recv_buf) == last_seq

unfoldable pub litedt_on_close_req : Env → ℕ → ℕ → Run ℕ
unfolding is_complete litedt_close_rsp release_connection litedt_mod_evtime
litedt_on_close_req env flow last_seq = do
  cur_time ← gets (λ e. e.host.cur_time)
  conn ← find_connection flow
  elim conn [
    | none ↦ do litedt_close_rsp env flow; return 0
    | some c ↦ elim c.state [
      | fin_wait ↦ do release_connection env flow; litedt_close_rsp env flow; return 0
      | closed ↦ return 0
      | _ ↦
          if is_complete c last_seq
          then (do
            mod_conn flow (λ c. record c { state = closed })
            litedt_close_rsp env flow
            litedt_mod_evtime env (some flow) cur_time
            return 0)
          else (do
            mod_conn flow (λ c. record c { state = close_wait })
            litedt_mod_evtime env (some flow) (cur_time + normal_ack_delay)
            return 0)
    ]
  ]

unfoldable pub litedt_on_close_rsp : Env → ℕ → Run ℕ
unfolding release_connection
litedt_on_close_rsp env flow = do
  conn ← find_connection flow
  elim conn [
    | none ↦ return 0
    | some c ↦ do when (rank c.state == 2) (release_connection env flow); return 0
  ]

unfoldable pub litedt_on_conn_rst : Env → ℕ → Run ℕ
unfolding release_connection litedt_mod_evtime
litedt_on_conn_rst env flow = do
  cur_time ← gets (λ e. e.host.cur_time)
  conn ← find_connection flow
  elim conn [
    | none ↦ return 0
    | some c ↦ if rank c.state == 2 then (do release_connection env flow; return 0) else (do
      mod_conn flow (λ c. record c { state = closed })
      litedt_mod_evtime env (some flow) cur_time
      return 0)
  ]
