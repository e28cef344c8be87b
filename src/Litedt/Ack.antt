-- ===== src/Litedt/Ack.antt =====
-- The handler of src/litedt.c for acknowledgements, which releases packets and moves the send window.
use liteflow.Base.{
  ℕ, Bool, false, ◌&&◌, ltb, leb, min_of, if◌then◌else◌, Option, none, some, List, [], ◌∷◌,
}
use liteflow.Base.Word.{sub32}
use liteflow.Config.{Transport}
use liteflow.Host.{Host, RateSample}
use liteflow.Seq.{less_equal}
use liteflow.Rbuffer.{rbuf_writable_bytes, rbuf_window_info, rbuf_release}
use liteflow.Retrans.{Retrans, retrans_checkpoint}
use liteflow.Retrans.Events.{release_packet_range, generate_bandwidth}
use liteflow.Ctrl.{ctrl_io_event}
use liteflow.Messages.{DataAck}
use liteflow.Litedt.{
  Env, Run, ◌>>=◌, ◌>>◌, return, gets, lift, modify, emit, when, rank, Conn, ReadyQueue,
  ready_queue, on_send, find_connection, mod_conn, litedt_record_not_found,
}
use liteflow.Litedt.Control.{establish}
use liteflow.Litedt.Receive.{held}

abbrev swnd_max_size : ℕ
swnd_max_size = 1_073_741_824

abbrev pub no_sample : RateSample
no_sample = record {
  prior_mstamp = 0;
  prior_delivered = 0;
  delivered = 0;
  interval_us = 0;
  rtt_us = 0;
  is_app_limited = false;
}

-- What the packets of a connection share with the host: the state that retransmission works on.
abbrev pub Accounts : Type 0
Accounts = Host × Retrans × ReadyQueue × RateSample

-- The loop over the ranges of the message.
unfoldable pub release_ranges : Env → ℕ → List (ℕ × ℕ) → Accounts → Accounts
unfolding release_packet_range
release_ranges env flow [] st = st
release_ranges env flow ((start, end_) ∷ acks) st =
    release_ranges env flow acks
      (release_packet_range (ready_queue env.alloc) flow (λ s. env.now) start end_ st)

-- Whether the message moves the send window.
unfoldable pub moves_window : Conn → DataAck → Bool
unfolding less_equal
moves_window c ack = less_equal c.swin_start ack.win_start && less_equal ack.win_start c.send_seq

-- The part of litedt_on_data_ack that moves the send window. The connection that is passed has its
-- packet list in the accounts.
unfoldable pub move_window : Env → ℕ → ℕ → DataAck → Conn → Accounts → Option (Conn × Accounts)
unfolding rbuf_window_info rbuf_release retrans_checkpoint
move_window env flow cur_time ack c st =
    let size = sub32 ack.win_start (rbuf_window_info c.send_buf).0 in
    let moved : Conn = record c {
      last_sync_time = cur_time;
      probes_sent = 0;
      swin_start = ack.win_start;
      swin_size = min_of ack.win_size swnd_max_size;
    } in
    elim (if ltb 0 size then rbuf_release env.alloc c.send_buf size else some c.send_buf) [
      | none ↦ none
      | some buf ↦
          elim (retrans_checkpoint (ready_queue env.alloc) flow (λ s. env.now) ack.win_start st) [
            | none ↦ none
            | some st' ↦ some (record moved { send_buf = buf }, st')
          ]
    ]

-- The connection and the accounts after the packets were released.
unfoldable pub apply_ack :
    Env → ℕ → ℕ → DataAck → Conn → Host → ReadyQueue → Option (Conn × Accounts)
unfolding release_ranges moves_window move_window
apply_ack env flow cur_time ack c host q =
    let st = release_ranges env flow ack.acks (host, c.retrans, q, no_sample) in
    if moves_window c ack then move_window env flow cur_time ack c st else some (c, st)

unfoldable pub litedt_on_data_ack : Transport → Env → ℕ → DataAck → Run ℕ
unfolding establish held apply_ack generate_bandwidth ctrl_io_event rbuf_writable_bytes
litedt_on_data_ack cfg env flow ack = do
  conn ← find_connection flow
  elim conn [
    | none ↦ return litedt_record_not_found
    | some c ↦ do
      mod_conn flow establish
      e ← gets (λ e. e)
      (c', (host, rt, q, rs)) ←
          lift (apply_ack env flow e.host.cur_time ack (establish c) e.host e.retrans_queue)
      mod_conn flow (λ c. record c {
        last_sync_time = c'.last_sync_time;
        probes_sent = c'.probes_sent;
        swin_start = c'.swin_start;
        swin_size = c'.swin_size;
        send_buf = c'.send_buf;
        retrans = rt;
      })
      let rated = generate_bandwidth host rs (sub32 host.delivered e.host.delivered)
      let (host', ctrl) = ctrl_io_event cfg rated e.ctrl rs
      modify (λ e. record e { host = host'; ctrl = ctrl; retrans_queue = q })
      let writable = rbuf_writable_bytes c'.send_buf
      when (c'.notify_send && (leb (rank c'.state) 1 && ltb 0 writable))
          (emit (on_send flow writable))
      return 0
  ]
