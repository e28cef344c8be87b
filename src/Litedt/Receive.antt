-- ===== src/Litedt/Receive.antt =====
-- The handlers of src/litedt.c for data and error correction.
use liteflow.Base.{
  ℕ, zero, suc, ◌+◌, ◌*◌, ◌==◌, Bool, true, false, not, ◌&&◌, ◌||◌, ltb, leb, min_of, if◌then◌else◌,
  none, some, length,
}
use liteflow.Base.Word.{add32}
use liteflow.Config.{Transport}
use liteflow.Rbuffer.{
  WriteRet, written, duplicated, no_block, out_of_range, rbuf_write, rbuf_readable_bytes,
}
use liteflow.Fec.{InsertRet, recovered, fec_checkpoint, fec_insert_data, fec_insert_sum}
use liteflow.Messages.{DataPost, DataFec}
use liteflow.Litedt.{
  Env, Run, ◌>>=◌, ◌>>◌, return, gets, lift, modify_stat, emit, when, rank, Conn, on_receive,
  find_connection, mod_conn, litedt_mod_evtime, litedt_record_not_found,
}
use liteflow.Litedt.Sack.{push_sack_map}
use liteflow.Litedt.Post.{litedt_data_ack}
use liteflow.Litedt.User.{sync_window, fast_ack_delay}
use liteflow.Litedt.Control.{establish}

abbrev pub reack_delay : ℕ
reack_delay = 40_000

-- A read through the pointer to a connection, which must be in the table.
unfoldable pub held : ℕ → Run Conn
held flow = do conn ← find_connection flow; lift conn

-- Data was duplicated or out of the window; and whether it was neither refused for lack of memory.
abbrev pub counts_dup : WriteRet → Bool
counts_dup written = false
counts_dup duplicated = true
counts_dup no_block = false
counts_dup out_of_range = true

-- ret >= 0; RBUF_OUT_OF_RANGE is negative.
abbrev pub is_stored : WriteRet → Bool
is_stored written = true
is_stored duplicated = true
is_stored no_block = false
is_stored out_of_range = false

-- `insert` is what is done with a packet that did not come from error correction, and it may change the
-- connection; then the old groups go.
unfoldable pub store_data : Transport → Env → ℕ → DataPost → Run Unit → Run Bool
unfolding rbuf_write sync_window push_sack_map held fec_checkpoint
store_data cfg env flow post insert = do
  c ← held flow
  (buf, ret) ←
      lift
        (rbuf_write env.memory env.alloc env.block_create c.recv_buf post.seq post.payload post.len)
  when (counts_dup ret)
      (modify_stat (λ s. record s { dup_packet_recv = add32 s.dup_packet_recv 1 }))
  mod_conn flow (λ c. record c { recv_buf = buf })
  when (is_stored ret) (do
    let synced = sync_window (record c { recv_buf = buf })
    sacks ← lift (push_sack_map env.alloc synced.rwin_start buf.range_map post.seq c.sack_map)
    mod_conn flow (λ c. record c {
      rwin_start = synced.rwin_start;
      rwin_size = synced.rwin_size;
      sack_map = sacks;
    })
    when (c.fec_enabled && not (cfg.fec_decode == 0))
        (do insert; mod_conn flow (λ c. record c { fec = fec_checkpoint cfg c.fec c.rwin_start })))
  return (is_stored ret)

-- The loop that acknowledges while the list is full; every range is sent at most twice, so twice the
-- ranges is enough fuel.
unfoldable pub ack_while : ℕ → Transport → Env → ℕ → Run Unit
unfolding litedt_data_ack held
ack_while zero cfg env flow = return tt
ack_while (suc f) cfg env flow = do
  c ← held flow
  when (not (cfg.ack_size == 0) && leb cfg.ack_size (length c.sack_map))
      (do litedt_data_ack cfg env flow true; ack_while f cfg env flow)

-- The acknowledgement: at once where the list is full, else soon.
unfoldable pub acknowledge : Transport → Env → ℕ → ℕ → Run Unit
unfolding litedt_data_ack ack_while held litedt_mod_evtime
acknowledge cfg env flow cur_time = do
  c ← held flow
  if leb cfg.ack_size (length c.sack_map)
      then (do
        litedt_data_ack cfg env flow true
        ack_while (2 * length c.sack_map) cfg env flow
        mod_conn flow (λ c. record c { reack_times = 1 })
        litedt_mod_evtime env (some flow) (cur_time + reack_delay))
      else (do
        mod_conn flow (λ c. record c { reack_times = 2 })
        litedt_mod_evtime env (some flow) (min_of c.next_sync_time (cur_time + fast_ack_delay)))

-- The call of receive_cb at the end. `is_kept` says that rbuf_write took the packet: only then is
-- `readable` read.
unfoldable pub notify_readable : ℕ → Bool → Run Unit
unfolding held rbuf_readable_bytes
notify_readable flow is_kept = do
  c ← held flow
  let readable = if is_kept then rbuf_readable_bytes c.recv_buf else 0
  when ((c.notify_recv || c.notify_recvnew) && (ltb 0 readable && not (rank c.state == 2)))
      (emit (on_receive flow readable))

-- litedt_on_data_recv, with what it does to the groups of error correction.
unfoldable pub data_recv : Transport → Env → ℕ → DataPost → Run Unit → Run ℕ
unfolding establish litedt_data_ack litedt_mod_evtime store_data acknowledge notify_readable
data_recv cfg env flow post insert = do
  cur_time ← gets (λ e. e.host.cur_time)
  conn ← find_connection flow
  elim conn [
    | none ↦ return litedt_record_not_found
    | some c ↦ do
      mod_conn flow establish
      if post.len == 0
          then (do
            litedt_data_ack cfg env flow true
            mod_conn flow (λ c. record c { reack_times = 1 })
            litedt_mod_evtime env (some flow) (cur_time + reack_delay)
            return 0)
          else (do
            is_kept ← store_data cfg env flow post insert
            acknowledge cfg env flow cur_time
            notify_readable flow is_kept
            return 0)
  ]

-- The call with fec_recv = 1 on a packet that was recovered.
unfoldable pub on_recovered : Transport → Env → ℕ → InsertRet → Run Unit
unfolding data_recv
on_recovered cfg env flow ret = elim ret [
  | recovered post ↦ do
    data_recv cfg env flow post (return tt)
    modify_stat (λ s. record s { fec_recover = add32 s.fec_recover 1 })
  | _ ↦ return tt
]

-- fec_insert_data for the connection, with the packet that it may recover.
unfoldable pub insert_data : Transport → Env → ℕ → DataPost → Run Unit
unfolding held fec_insert_data on_recovered
insert_data cfg env flow post = do
  c ← held flow
  (fm, ret) ← lift (fec_insert_data env.alloc c.fec post)
  mod_conn flow (λ c. record c { fec = fm })
  on_recovered cfg env flow ret

unfoldable pub litedt_on_data_recv : Transport → Env → ℕ → DataPost → Run ℕ
unfolding data_recv insert_data
litedt_on_data_recv cfg env flow post = data_recv cfg env flow post (insert_data cfg env flow post)

unfoldable pub litedt_on_data_fec : Transport → Env → ℕ → DataFec → Run ℕ
unfolding establish held fec_insert_sum on_recovered fec_checkpoint
litedt_on_data_fec cfg env flow f = do
  conn ← find_connection flow
  elim conn [
    | none ↦ return litedt_record_not_found
    | some c ↦ if not c.fec_enabled || (cfg.fec_decode == 0) then return 0 else (do
      mod_conn flow establish
      c' ← held flow
      if not ((rank c'.state == 1) || (rank c'.state == 3)) then return 0 else (do
        (fm, ret) ← lift (fec_insert_sum env.alloc c'.fec f)
        mod_conn flow (λ c. record c { fec = fm })
        on_recovered cfg env flow ret
        mod_conn flow (λ c. record c { fec = fec_checkpoint cfg c.fec c.rwin_start })
        return 0))
  ]
