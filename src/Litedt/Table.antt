-- ===== src/Litedt/Table.antt =====
-- The table of connections of src/litedt.c: how one is made and released.
use liteflow.Base.{
  ℕ, ◌-◌, ◌/◌, ◌==◌, Bool, true, false, not, ◌&&◌, if◌then◌else◌, none, some, List, [], ◌∷◌, ◌++◌,
  unlink,
}
use liteflow.Base.Word.{u32_mod}
use liteflow.Config.{Transport}
use liteflow.Rbuffer.{rbuf_init, rbuf_window_info, rbuf_block_size}
use liteflow.Retrans.{retrans_mod_init}
use liteflow.Retrans.Events.{retrans_mod_fini}
use liteflow.Fec.{fec_mod_init}
use liteflow.Litedt.{
  Engine, Env, Run, ◌>>=◌, ◌>>◌, return, gets, modify, emit, when, lookup, remove, Conn, ConnState,
  rank, on_connect, on_close, litedt_record_exists, find_connection, litedt_mod_evtime, ready_queue,
}

abbrev pub connection_timeout : ℕ
connection_timeout = 120_000_000

-- The connection that create_connection fills in.
unfoldable pub new_conn : Transport → ℕ → ℕ → ConnState → Conn
unfolding rbuf_init rbuf_window_info
new_conn cfg now tunnel_id state =
    let buf = rbuf_init (cfg.buffer_size / rbuf_block_size) in
    record {
      state = state;
      tunnel_id = tunnel_id;
      swin_start = 0;
      swin_size = cfg.buffer_size;
      rwin_start = (rbuf_window_info buf).0;
      rwin_size = (rbuf_window_info buf).1;
      write_seq = 0;
      send_seq = 0;
      reack_times = 0;
      probes_sent = 0;
      notify_recvnew = false;
      notify_recv = true;
      notify_send = false;
      fec_enabled = not ((cfg.fec_decode == 0) && (cfg.fec_group_size == 0));
      sack_map = [];
      last_probe_time = now;
      last_sync_time = now;
      next_sync_time = now;
      event_time = now;
      send_buf = buf;
      recv_buf = buf;
      retrans = retrans_mod_init;
      fec = fec_mod_init cfg;
    }

-- Whether a flow has a connection or waits after the close of one.
abbrev pub is_known : Engine → ℕ → Bool
is_known e flow = elim (lookup flow e.conns) [
  | some c ↦ true
  | none ↦ elim (lookup flow e.timewait) [ some t ↦ true | none ↦ false ]
]

-- The connection enters the table.
unfoldable pub insert_connection : Transport → Env → ℕ → ℕ → ConnState → Run ℕ
unfolding new_conn litedt_mod_evtime
insert_connection cfg env flow tunnel_id state = do
  modify (λ e. record e { conns = (flow, new_conn cfg env.now tunnel_id state) ∷ e.conns })
  litedt_mod_evtime env (some flow) env.now
  return 0

-- The failure of the hash queue of fec_mod_init: the connection is in the table by then, retrans_mod_fini
-- runs on it, and timerlist_del takes it out again.
unfoldable pub undo_connection : Transport → Env → ℕ → ℕ → ConnState → Run ℕ
unfolding new_conn retrans_mod_fini
undo_connection cfg env flow tunnel_id state = do
  let c = new_conn cfg env.now tunnel_id state
  modify (λ e. record e { conns = (flow, c) ∷ e.conns })
  modify (λ e.
      let (host', rt, q) =
        retrans_mod_fini (ready_queue env.alloc) flow e.host c.retrans e.retrans_queue in
      record e { host = host'; retrans_queue = q; conns = remove flow e.conns })
  return (u32_mod - 1)

-- What create_connection does for a flow that is not known. The result is that of connect_cb where it
-- refuses; where timerlist_push or the hash queue of fec_mod_init fails it is -1.
unfoldable pub ask_and_insert : Transport → Env → ℕ → ℕ → ConnState → Run ℕ
unfolding insert_connection undo_connection
ask_and_insert cfg env flow tunnel_id state = do
  let asked = rank state == 1
  when asked (emit (on_connect flow tunnel_id))
  let ret = if asked then env.connect flow tunnel_id else 0
  if not (ret == 0)
      then return ret
      else (if not env.alloc
          then return (u32_mod - 1)
          else if (new_conn cfg env.now tunnel_id state).fec_enabled && not env.fec_alloc
          then undo_connection cfg env flow tunnel_id state
          else insert_connection cfg env flow tunnel_id state)

unfoldable pub create_connection : Transport → Env → ℕ → ℕ → ConnState → Run ℕ
unfolding ask_and_insert
create_connection cfg env flow tunnel_id state = do
  known ← gets (λ e. is_known e flow)
  if known then return litedt_record_exists else ask_and_insert cfg env flow tunnel_id state

-- The end of a connection that is there: its packets leave the accounts and it goes to TIME_WAIT. The
-- result of queue_append is not tested: where it fails, nothing remembers the flow.
unfoldable pub retire : Env → ℕ → Conn → Engine → Engine
unfolding retrans_mod_fini
retire env flow c e =
    let (host', rt, q) =
      retrans_mod_fini (ready_queue env.alloc) flow e.host c.retrans e.retrans_queue in
    record e {
      host = host';
      retrans_queue = q;
      active = unlink flow e.active;
      conns = remove flow e.conns;
      timewait = if env.timewait_alloc then e.timewait ++ ((flow, env.now) ∷ []) else e.timewait;
    }

unfoldable pub release_connection : Env → ℕ → Run Unit
unfolding retire
release_connection env flow = do
  conn ← find_connection flow
  elim conn [ none ↦ return tt | some c ↦ do emit (on_close flow); modify (retire env flow c) ]

-- The loop of release_all_connections, along the flows.
unfoldable pub release_while : Env → List (ℕ × Conn) → Run Unit
unfolding release_connection
release_while env [] = return tt
release_while env ((flow, c) ∷ rest) = do release_connection env flow; release_while env rest

unfoldable pub release_all_connections : Env → Run Unit
unfolding release_while
release_all_connections env = do conns ← gets (λ e. e.conns); release_while env conns
