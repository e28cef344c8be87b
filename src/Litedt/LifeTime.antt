-- ===== src/Litedt/LifeTime.antt =====
-- What src/litedt.c does on time, and the calls of its user, move every flow along.
use liteflow.Base.{true, ℕ, zero, suc, ◌==◌, ◌≡◌, refl, Bool, not, Option, none, some, ltb}
use liteflow.Config.{Transport}
use liteflow.Messages.{no_bytes, DataPost, DataFec}
use liteflow.Rbuffer.{rbuf_read}
use liteflow.Litedt.{
  is_online, litedt_client_offline, litedt_parameter_error, litedt_record_not_found,
  litedt_seq_out_of_range, Env, Run, Conn, ConnState, request, established, fin_wait, close_wait,
  closed,
}
use liteflow.Litedt.Post.{
  is_outside_window, send_fec, conn_fec_post, record_packet, send_post, litedt_data_post,
}
use liteflow.Litedt.Send.{litedt_conn_req, litedt_close_req}
use liteflow.Litedt.Timer.{
  probe_window, check_and_send_probes, synchronize, plan_sync, notify_user, resched, finish_check,
  check_connection, check_while, top_conn, check_connection_state,
}
use liteflow.Litedt.Follow.{
  Follows, Follows-bind, Follows-then, Follows-return, Follows-gets, Follows-lift, Follows-when,
  Follows-if, Follows-elim,
}
use liteflow.Litedt.Life.{state_if, follow, socket_send-Follows, litedt_data_ack-Follows}
use liteflow.Litedt.LifeTable.{release_connection-Follows}
use liteflow.Litedt.LifeData.{held-Follows}

send_fec-Follows : (env : Env) (flow : ℕ) (o : Option DataFec) → Follows (send_fec env flow o)
unfolding send_fec
send_fec-Follows env flow none = Follows-return tt
send_fec-Follows env flow (some f) = search (follow, socket_send-Follows) depth 9

conn_fec_post-Follows :
    (cfg : Transport) (env : Env) (flow : ℕ) (c : Conn) → Follows (conn_fec_post cfg env flow c)
unfolding conn_fec_post
conn_fec_post-Follows cfg env flow c = search (follow, send_fec-Follows) depth 9

record_packet-Follows :
    (cfg : Transport) (env : Env) (flow : ℕ) (c : Conn) (seq len fec_seq fec_index : ℕ)
    → Follows (record_packet cfg env flow c seq len fec_seq fec_index)
unfolding record_packet
record_packet-Follows cfg env flow c seq len fec_seq fec_index = search follow depth 14

send_post-Follows :
    (cfg : Transport) (env : Env) (flow : ℕ) (c : Conn) (post : DataPost) (fec_post : Bool)
    → Follows (send_post cfg env flow c post fec_post)
unfolding send_post
send_post-Follows cfg env flow c post fec_post =
    search (follow, socket_send-Follows, send_fec-Follows) depth 14

pub litedt_data_post-Follows :
    (cfg : Transport) (env : Env) (flow seq len fec_seq fec_index : ℕ) (fec_post : Bool)
    → Follows (litedt_data_post cfg env flow seq len fec_seq fec_index fec_post)
unfolding litedt_data_post
litedt_data_post-Follows cfg env flow seq len fec_seq fec_index fec_post =
    Follows-bind (Follows-gets _) (λ e. Follows-bind (Follows-gets _) (λ o.
      Follows-if (not (is_online e)) (Follows-return litedt_client_offline) (
        Follows-if (ltb e.mss len) (Follows-return litedt_parameter_error) (
          Follows-elim o (Follows-return litedt_record_not_found) (λ c.
            Follows-if (is_outside_window c seq len) (Follows-return litedt_seq_out_of_range) (
              Follows-bind (Follows-lift (rbuf_read c.send_buf seq len no_bytes)) (λ bytes.
                Follows-then
                  (Follows-when (not (len == 0))
                    (record_packet-Follows cfg env flow c seq len fec_seq fec_index))
                  (send_post-Follows cfg env flow c
                    (record {
                      seq = seq;
                      len = len;
                      fec_seq = fec_seq;
                      fec_index = fec_index;
                      payload = bytes;
                    })
                    fec_post))))))))

pub litedt_conn_req-Follows :
    (env : Env) (flow tunnel_id : ℕ) → Follows (litedt_conn_req env flow tunnel_id)
unfolding litedt_conn_req
litedt_conn_req-Follows env flow tunnel_id = search (follow, socket_send-Follows) depth 9

pub litedt_close_req-Follows :
    (env : Env) (flow last_seq : ℕ) → Follows (litedt_close_req env flow last_seq)
unfolding litedt_close_req
litedt_close_req-Follows env flow last_seq = search (follow, socket_send-Follows) depth 9

probe_window-Follows :
    (cfg : Transport) (env : Env) (flow : ℕ) (c : Conn) (max_probes : ℕ)
    → Follows (probe_window cfg env flow c max_probes)
unfolding probe_window
probe_window-Follows cfg env flow c max_probes = search (follow, litedt_data_post-Follows) depth 14

check_and_send_probes-Follows :
    (cfg : Transport) (env : Env) (flow : ℕ) (c : Conn)
    → Follows (check_and_send_probes cfg env flow c)
unfolding check_and_send_probes
check_and_send_probes-Follows cfg env flow c =
    search (follow, probe_window-Follows, held-Follows) depth 16

at_state :
    {A : Type 0} (s : ConnState) {m n o p q : Run A}
    → Follows m
    → Follows n
    → Follows o
    → Follows p
    → Follows q
    → Follows
        (elim s [ request ↦ m | established ↦ n | fin_wait ↦ o | close_wait ↦ p | closed ↦ q ])
at_state request a b c d e = a
at_state established a b c d e = b
at_state fin_wait a b c d e = c
at_state close_wait a b c d e = d
at_state closed a b c d e = e

synchronize-Follows :
    (cfg : Transport) (env : Env) (k : env.timewait_alloc ≡ true) (flow : ℕ) (c : Conn)
    → Follows (synchronize cfg env flow c)
unfolding synchronize
synchronize-Follows cfg env k flow c =
    at_state c.state
      (Follows-then (litedt_conn_req-Follows env flow c.tunnel_id) (Follows-return _))
      (Follows-then (Follows-when _ (conn_fec_post-Follows cfg env flow c))
        (Follows-then (litedt_data_ack-Follows cfg env flow _) (Follows-return _)))
      (Follows-then (Follows-when _ (conn_fec_post-Follows cfg env flow c))
        (Follows-then (litedt_close_req-Follows env flow c.write_seq) (Follows-return _)))
      (Follows-then (litedt_data_ack-Follows cfg env flow _) (Follows-return _))
      (Follows-if _ (Follows-then (release_connection-Follows env k flow) (Follows-return _))
        (Follows-return _))

notify_user-Follows : (flow : ℕ) (c : Conn) → Follows (notify_user flow c)
unfolding notify_user
notify_user-Follows flow c = search follow depth 12

finish_check-Follows :
    (flow cur_time : ℕ) (probe_time : Option ℕ) → Follows (finish_check flow cur_time probe_time)
unfolding finish_check resched
finish_check-Follows flow cur_time probe_time =
    search (follow, held-Follows, notify_user-Follows) depth 12

plan_sync_state : (cur_time : ℕ) (c : Conn) → (plan_sync cur_time c).state ≡ c.state
unfolding plan_sync
plan_sync_state cur_time c = state_if (ltb 1 c.reack_times) _ _ c.state refl refl

check_connection-Follows :
    (cfg : Transport) (env : Env) (k : env.timewait_alloc ≡ true) (flow : ℕ) (c : Conn)
    → Follows (check_connection cfg env flow c)
unfolding check_connection
check_connection-Follows cfg env k flow c =
    search
      (
        follow, release_connection-Follows, check_and_send_probes-Follows, held-Follows,
        finish_check-Follows, synchronize-Follows, plan_sync_state,
      )
      depth 18

top_case :
    {A : Type 0} (o : Option (ℕ × Conn)) {m : Run A} {f : ℕ → Conn → Run A}
    → Follows m
    → ((flow : ℕ) (c : Conn) → Follows (f flow c))
    → Follows (elim o [ none ↦ m | some (flow, c) ↦ f flow c ])
top_case none p q = p
top_case (some (flow, c)) p q = q flow c

check_while-Follows :
    (f : ℕ) (cfg : Transport) (env : Env) (k : env.timewait_alloc ≡ true)
    → Follows (check_while f cfg env)
unfolding check_while
check_while-Follows zero cfg env k = Follows-return tt
check_while-Follows (suc f) cfg env k = Follows-bind (Follows-gets _) (λ e.
    top_case (top_conn e.conns) (Follows-return tt) (λ flow c.
      Follows-if _ (Follows-return tt) (
        Follows-then (check_connection-Follows cfg env k flow c)
          (check_while-Follows f cfg env k))))

pub check_connection_state-Follows :
    (cfg : Transport) (env : Env) (k : env.timewait_alloc ≡ true) (next_time : ℕ)
    → Follows (check_connection_state cfg env next_time)
unfolding check_connection_state
check_connection_state-Follows cfg env k next_time = Follows-bind (Follows-gets _) (λ conns.
    Follows-then (check_while-Follows _ cfg env k) (
      Follows-bind (Follows-gets _)
        (λ left. top_case (top_conn left) (Follows-return _) (λ flow c. Follows-return _))))
