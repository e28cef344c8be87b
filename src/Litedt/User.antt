-- ===== src/Litedt/User.antt =====
-- The functions of src/litedt.c that its user calls.
use liteflow.Base.{ℕ, ◌+◌, ◌==◌, Bool, not, ltb, leb, if◌then◌else◌, none, some, [], ◌∷◌, ◌++◌, has}
use liteflow.Base.Word.{add32, sub32}
use liteflow.Config.{Transport}
use liteflow.Rbuffer.{
  rbuf_writable_bytes, rbuf_readable_bytes, rbuf_write_front, rbuf_read_front, rbuf_release,
  rbuf_window_info,
}
use liteflow.Litedt.{
  Env, Run, ◌>>=◌, ◌>>◌, return, gets, lift, modify, when, rank, Conn, request, fin_wait,
  find_connection, mod_conn, is_online, litedt_mod_evtime, litedt_client_offline,
  litedt_record_not_found, litedt_not_enough_space,
}
use liteflow.Litedt.Send.{litedt_conn_req, litedt_close_req, litedt_close_rsp}
use liteflow.Litedt.Table.{create_connection, release_connection}

abbrev pub fast_ack_delay : ℕ
fast_ack_delay = 20_000

abbrev pub normal_ack_delay : ℕ
normal_ack_delay = 1_000_000

abbrev pub send_interval : ℕ
send_interval = 1000

-- The receive window after the bytes that can be read.
unfoldable pub sync_window : Conn → Conn
unfolding rbuf_window_info rbuf_readable_bytes
sync_window c =
    let (start, size) = rbuf_window_info c.recv_buf in
    let readable = rbuf_readable_bytes c.recv_buf in
    record c { rwin_start = add32 start readable; rwin_size = sub32 size readable }

unfoldable pub litedt_connect : Transport → Env → ℕ → ℕ → Run ℕ
unfolding create_connection litedt_conn_req
litedt_connect cfg env flow tunnel_id = do
  online ← gets is_online
  conn ← find_connection flow
  if not online then return litedt_client_offline else (do
    ret ← elim conn [ none ↦ create_connection cfg env flow tunnel_id request | some c ↦ return 0 ]
    when (ret == 0) (litedt_conn_req env flow tunnel_id)
    return ret)

unfoldable pub litedt_close : Env → ℕ → Run ℕ
unfolding litedt_close_req litedt_close_rsp release_connection litedt_mod_evtime
litedt_close env flow = do
  conn ← find_connection flow
  elim conn [
    | none ↦ return litedt_record_not_found
    | some c ↦
        if leb (rank c.state) 1
        then (do
          mod_conn flow (λ c. record c { state = fin_wait })
          litedt_close_req env flow c.write_seq
          last ← gets (λ e. e.last_event_time)
          litedt_mod_evtime env (some flow) (last + normal_ack_delay)
          return 0)
        else (if not (rank c.state == 2)
            then (do litedt_close_rsp env flow; release_connection env flow; return 0)
            else return 0)
  ]

-- The part of litedt_send that writes. The result of rbuf_write_front is not tested.
unfoldable pub write_data : Env → ℕ → Conn → (ℕ → ℕ) → ℕ → Run Unit
unfolding rbuf_write_front litedt_mod_evtime
write_data env flow c bytes len = do
  (buf, ret) ← lift (rbuf_write_front env.memory env.alloc env.block_create c.send_buf bytes len)
  mod_conn flow (λ c. record c { send_buf = buf; write_seq = buf.write_pos })
  modify
      (λ e. record e { active = if has flow e.active then e.active else (e.active ++ (flow ∷ [])) })
  last ← gets (λ e. e.last_event_time)
  litedt_mod_evtime env none (last + send_interval)

unfoldable pub litedt_send : Env → ℕ → (ℕ → ℕ) → ℕ → Run ℕ
unfolding write_data rbuf_writable_bytes
litedt_send env flow bytes len = do
  conn ← find_connection flow
  elim conn [
    | none ↦ return litedt_record_not_found
    | some c ↦
        if leb 2 (rank c.state)
        then return litedt_record_not_found
        else (if ltb (rbuf_writable_bytes c.send_buf) len
            then return litedt_not_enough_space
            else (do when (not (len == 0)) (write_data env flow c bytes len); return 0))
  ]

-- What litedt_recv and litedt_recv_skip do after `len` bytes of the receive buffer were used.
unfoldable pub release_read : Env → ℕ → Conn → ℕ → Run Unit
unfolding rbuf_release sync_window litedt_mod_evtime
release_read env flow c len = do
  buf ← lift (rbuf_release env.alloc c.recv_buf len)
  mod_conn flow (λ c. record (sync_window (record c { recv_buf = buf })) { reack_times = 2 })
  litedt_mod_evtime env (some flow) (env.now + fast_ack_delay)

-- The bytes that were read, and how many; an error has no bytes.
unfoldable pub litedt_recv : Env → ℕ → ℕ → (ℕ → ℕ) → Run ((ℕ → ℕ) × ℕ)
unfolding rbuf_read_front release_read
litedt_recv env flow len out = do
  conn ← find_connection flow
  elim conn [
    | none ↦ return (out, litedt_record_not_found)
    | some c ↦ do
      (bytes, ret) ← lift (rbuf_read_front c.recv_buf len out)
      when (not (ret == 0)) (release_read env flow c ret)
      return (bytes, ret)
  ]

unfoldable pub litedt_peek : ℕ → ℕ → (ℕ → ℕ) → Run ((ℕ → ℕ) × ℕ)
unfolding rbuf_read_front
litedt_peek flow len out = do
  conn ← find_connection flow
  elim conn [
    | none ↦ return (out, litedt_record_not_found)
    | some c ↦ lift (rbuf_read_front c.recv_buf len out)
  ]

unfoldable pub litedt_recv_skip : Env → ℕ → ℕ → Run Unit
unfolding release_read
litedt_recv_skip env flow len = do
  conn ← find_connection flow
  elim conn [
    | none ↦ return tt
    | some c ↦ if len == 0 then return tt else release_read env flow c len
  ]

unfoldable pub litedt_writable_bytes : ℕ → Run ℕ
unfolding rbuf_writable_bytes
litedt_writable_bytes flow = do
  conn ← find_connection flow
  elim conn [
    | none ↦ return litedt_record_not_found
    | some c ↦ return (rbuf_writable_bytes c.send_buf)
  ]

unfoldable pub litedt_readable_bytes : ℕ → Run ℕ
unfolding rbuf_readable_bytes
litedt_readable_bytes flow = do
  conn ← find_connection flow
  elim conn [
    | none ↦ return litedt_record_not_found
    | some c ↦ return (rbuf_readable_bytes c.recv_buf)
  ]

unfoldable pub litedt_set_notify_recv : ℕ → Bool → Run Unit
litedt_set_notify_recv flow notify = mod_conn flow (λ c. record c { notify_recv = notify })

unfoldable pub litedt_set_notify_recvnew : ℕ → Bool → Run Unit
litedt_set_notify_recvnew flow notify = mod_conn flow (λ c. record c { notify_recvnew = notify })

unfoldable pub litedt_set_notify_send : ℕ → Bool → Run Unit
litedt_set_notify_send flow notify = mod_conn flow (λ c. record c { notify_send = notify })
