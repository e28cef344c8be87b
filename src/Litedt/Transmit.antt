-- ===== src/Litedt/Transmit.antt =====
-- The sending of waiting data: retrans_queue_send and handle_retrans of src/retrans.c, and
-- check_retrans_queue and check_transmit_queue of src/litedt.c.
use liteflow.Base.{
  ℕ, zero, suc, ◌+◌, ◌*◌, ◌/◌, ◌==◌, Bool, true, false, not, ◌&&◌, ◌||◌, ltb, leb, min_of,
  if◌then◌else◌, Option, none, some, List, [], ◌∷◌, ◌++◌, length, unlink,
}
use liteflow.Base.Word.{add32, sub32}
use liteflow.Config.{Transport}
use liteflow.Host.{Host, usec_per_sec}
use liteflow.Seq.{after}
use liteflow.Retrans.{Packet, find_retrans}
use liteflow.Retrans.Events.{retrans_time_event, retrans_next_event_time, queue_retrans}
use liteflow.Ctrl.{mark_app_limited}
use liteflow.Fec.{get_fec_header}
use liteflow.Messages.{litedt_max_header}
use liteflow.Litedt.{
  Engine, Env, Stat, Run, ◌>>=◌, ◌>>◌, return, gets, lift, modify, modify_host, when, rank, Conn,
  ReadyQueue, ready_queue, mod_conn, litedt_send_flow_control,
}
use liteflow.Litedt.Post.{litedt_data_post}
use liteflow.Litedt.User.{send_interval}
use liteflow.Litedt.Receive.{held}

-- timerlist_top of the ready packets: one with the earliest send time.
abbrev pub earliest : ℕ × (ℕ × ℕ) → ReadyQueue → ℕ × (ℕ × ℕ)
earliest best [] = best
earliest best (x ∷ xs) = earliest (if ltb x.0 best.0 then x else best) xs

abbrev pub top_ready : ReadyQueue → Option (ℕ × (ℕ × ℕ))
top_ready [] = none
top_ready (x ∷ xs) = some (earliest x xs)

-- queue_retrans for a packet of the connection: it waits again.
unfoldable pub wait_again : Transport → Env → ℕ → ℕ → Packet → Run Unit
unfolding queue_retrans held
wait_again cfg env flow cur_time packet = do
  host ← gets (λ e. e.host)
  c ← held flow
  rt ← lift (queue_retrans cfg env.rto cur_time host c.retrans packet)
  mod_conn flow (λ c. record c { retrans = rt })

unfoldable pub handle_retrans : Transport → Env → ℕ → Packet → ℕ → Run ℕ
unfolding held after litedt_data_post wait_again
handle_retrans cfg env flow packet cur_time = do
  c ← held flow
  e ← gets (λ e. e)
  if leb 3 (rank c.state) || after c.swin_start packet.seq
      then (do wait_again cfg env flow cur_time packet; return 0)
      else (if ltb e.host.pacing_credit (packet.length + litedt_max_header)
          then return litedt_send_flow_control
          else (do
            modify_host (λ h. record h { retrans_packet_post = add32 h.retrans_packet_post 1 })
            ret ←
                litedt_data_post cfg env flow packet.seq packet.length packet.fec_seq
                  packet.fec_index false
            wait_again cfg env flow cur_time packet
            if ret == litedt_send_flow_control then return ret else return 0))

-- The packet that the top of the ready queue points to.
unfoldable pub ready_packet : ℕ × ℕ → Run Packet
unfolding held find_retrans
ready_packet key = do c ← held key.0; lift (find_retrans c.retrans key.1)

-- The loop of retrans_queue_send. Each round but the last takes a packet from the queue, so that its
-- length is enough fuel. The packet of the top is not ready any more exactly where it waits again.
unfoldable pub queue_send_while : ℕ → Transport → Env → Run Unit
unfolding handle_retrans ready_packet
queue_send_while zero cfg env = return tt
queue_send_while (suc f) cfg env = do
  e ← gets (λ e. e)
  elim (top_ready e.retrans_queue) [
    | none ↦ return tt
    | some (t, key) ↦ do
      packet ← ready_packet key
      ret ← handle_retrans cfg env key.0 packet e.host.cur_time
      packet' ← ready_packet key
      when (not packet'.is_ready) (
          modify
            (λ e. record e { retrans_queue = (ready_queue env.alloc).del e.retrans_queue key }))
      when (ret == 0) (queue_send_while f cfg env)
  ]

unfoldable pub retrans_queue_send : Transport → Env → Run Unit
unfolding queue_send_while
retrans_queue_send cfg env = do q ← gets (λ e. e.retrans_queue); queue_send_while (length q) cfg env

-- The time at which the credit for `predict` bytes is there. A rate of 0 is a division by 0.
unfoldable pub next_send_time : Host → ℕ → Option ℕ
next_send_time host predict =
    if host.pacing_rate == 0
    then none
    else some (host.pacing_time + predict * usec_per_sec / host.pacing_rate)

-- The first loop of check_retrans_queue, along the active connections; it ends where a push fails.
unfoldable pub ready_while : Env → ℕ → List ℕ → ℕ → Run ℕ
unfolding held retrans_time_event retrans_next_event_time
ready_while env cur_time [] next_time = return next_time
ready_while env cur_time (flow ∷ flows) next_time = do
  c ← held flow
  q ← gets (λ e. e.retrans_queue)
  (rt, q', ok) ←
      lift (
        retrans_time_event (ready_queue env.alloc) flow (leb 3 (rank c.state)) cur_time c.retrans q)
  mod_conn flow (λ c. record c { retrans = rt })
  modify (λ e. record e { retrans_queue = q' })
  if not ok then return next_time else (do
    time ← lift (retrans_next_event_time rt cur_time)
    ready_while env cur_time flows (min_of next_time time))

unfoldable pub check_retrans_queue : Transport → Env → ℕ → Run ℕ
unfolding ready_while retrans_queue_send ready_packet next_send_time
check_retrans_queue cfg env next_time = do
  before ← gets (λ e. e)
  next ← ready_while env before.host.cur_time before.active next_time
  retrans_queue_send cfg env
  e ← gets (λ e. e)
  elim (top_ready e.retrans_queue) [
    | none ↦ return next
    | some (t, key) ↦ do
      packet ← ready_packet key
      time ← lift (next_send_time e.host (packet.length + litedt_max_header))
      return (min_of next time)
  ]

-- Why check_transmit_queue stops.
pub data Stop : Type 0 where
  app_limited rate_limited cwnd_limited : Stop

abbrev pub is_app_limited : Stop → Bool
is_app_limited app_limited = true
is_app_limited rate_limited = false
is_app_limited cwnd_limited = false

-- What the next packet of the connection may carry: at most the data that waits, the largest packet and
-- the send window.
unfoldable pub next_bytes : Engine → Conn → ℕ
next_bytes e c =
    let bytes = min_of (sub32 c.write_seq c.send_seq) e.mss in
    min_of bytes (sub32 (add32 c.swin_start c.swin_size) c.send_seq)

-- The tests of the inner loop before a packet is sent, with the state it stops for.
unfoldable pub send_while : ℕ → Transport → Env → ℕ → ℕ → Run (ℕ × Stop)
unfolding held next_bytes next_send_time litedt_data_post get_fec_header
send_while zero cfg env flow next_time = return (next_time, app_limited)
send_while (suc f) cfg env flow next_time = do
  c ← held flow
  e ← gets (λ e. e)
  let bytes = next_bytes e c
  if (c.write_seq == c.send_seq) || (bytes == 0)
      then return (next_time, app_limited)
      else if ltb e.host.pacing_credit (bytes + litedt_max_header)
      then (do
        time ← lift (next_send_time e.host (bytes + litedt_max_header))
        return (min_of next_time time, rate_limited))
      else if leb e.host.snd_cwnd e.host.inflight
      then return (next_time, cwnd_limited)
      else (do
        let header =
            if c.fec_enabled && not (cfg.fec_group_size == 0) then get_fec_header c.fec else (0, 0)
        ret ← litedt_data_post cfg env flow c.send_seq bytes header.0 header.1 true
        if ret == 0
            then (do
              mod_conn flow (λ c. record c { send_seq = add32 c.send_seq bytes })
              send_while f cfg env flow next_time)
            else if ret == litedt_send_flow_control
            then return (min_of next_time (e.host.cur_time + send_interval), rate_limited)
            else return (next_time, app_limited))

-- is_snd_queue_empty
unfoldable pub is_snd_queue_empty : Conn → Bool
is_snd_queue_empty c = (c.write_seq == c.send_seq) && (length c.retrans.packet_list == 0)

abbrev pub deactivate : ℕ → Run Unit
deactivate flow = modify (λ e. record e { active = unlink flow e.active })

-- The active connections from `flow` on, and then the ones before it.
abbrev pub rotate_to : ℕ → List ℕ → List ℕ → List ℕ
rotate_to flow passed [] = passed
rotate_to flow passed (x ∷ xs) =
    let rest = rotate_to flow (passed ++ (x ∷ [])) xs in
    if x == flow then (x ∷ xs ++ passed) else rest

-- The outer loop of check_transmit_queue. A connection sends at least one byte in a round, so the bytes
-- that wait are enough fuel.
unfoldable pub transmit_while : Transport → Env → List ℕ → ℕ → Stop → Run (ℕ × Stop)
unfolding held send_while is_snd_queue_empty
transmit_while cfg env [] next_time stop = return (next_time, stop)
transmit_while cfg env (flow ∷ flows) next_time stop = do
  c ← held flow
  e ← gets (λ e. e)
  let full = leb e.host.snd_cwnd e.host.inflight
  if full || not (is_app_limited stop)
      then (do
        modify (λ e. record e { active = rotate_to flow [] e.active })
        return (next_time, if full then cwnd_limited else stop))
      else (if leb 3 (rank c.state)
          then (do deactivate flow; transmit_while cfg env flows next_time stop)
          else (do
            (next, stop') ← send_while (sub32 c.write_seq c.send_seq + 1) cfg env flow next_time
            c' ← held flow
            when (is_snd_queue_empty c') (deactivate flow)
            transmit_while cfg env flows next stop'))

-- The end of check_transmit_queue.
unfoldable pub after_transmit : Stop → Engine → Engine
unfolding mark_app_limited
after_transmit stop e =
    let marked = if is_app_limited stop then mark_app_limited e.host else e.host in
    let spent : Host =
      if is_app_limited stop || leb marked.snd_cwnd marked.inflight
      then record marked { pacing_credit = 0 }
      else marked in
    let counted : Stat = elim stop [
      | app_limited ↦ record e.stat {
        time_event_app_limited = add32 e.stat.time_event_app_limited 1;
      }
      | rate_limited ↦ record e.stat {
        time_event_rate_limited = add32 e.stat.time_event_rate_limited 1;
      }
      | cwnd_limited ↦ record e.stat {
        time_event_cwnd_limited = add32 e.stat.time_event_cwnd_limited 1;
      }
    ] in
    record e { host = spent; stat = counted }

unfoldable pub check_transmit_queue : Transport → Env → ℕ → Run ℕ
unfolding transmit_while after_transmit
check_transmit_queue cfg env next_time = do
  active ← gets (λ e. e.active)
  (next, stop) ← transmit_while cfg env active next_time app_limited
  modify (after_transmit stop)
  return next
