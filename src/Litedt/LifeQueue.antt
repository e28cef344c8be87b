-- ===== src/Litedt/LifeQueue.antt =====
-- The sending of waiting data in src/litedt.c and src/retrans.c moves every flow along.
use liteflow.Base.{true, ◌≡◌, ℕ, zero, suc, refl, not, ◌||◌, Option, none, some, List, [], ◌∷◌, leb}
use liteflow.Config.{Transport}
use liteflow.Retrans.{Packet}
use liteflow.Litedt.{rank, modify, Env, Run}
use liteflow.Litedt.Transmit.{
  is_app_limited, is_snd_queue_empty, rotate_to, deactivate, wait_again, handle_retrans,
  ready_packet, queue_send_while, retrans_queue_send, top_ready, ready_while, check_retrans_queue,
  Stop, send_while, transmit_while, after_transmit, check_transmit_queue,
}
use liteflow.Litedt.Event.{run_connections}
use liteflow.Litedt.Follow.{
  Follows, Follows-bind, Follows-then, Follows-return, Follows-gets, Follows-lift, Follows-when,
  Follows-if, Follows-modify, Follows-mod_conn_same,
}
use liteflow.Litedt.Life.{follow}
use liteflow.Litedt.LifeData.{held-Follows}
use liteflow.Litedt.LifeTime.{litedt_data_post-Follows, check_connection_state-Follows}

wait_again-Follows :
    (cfg : Transport) (env : Env) (flow cur_time : ℕ) (packet : Packet)
    → Follows (wait_again cfg env flow cur_time packet)
unfolding wait_again
wait_again-Follows cfg env flow cur_time packet = search follow depth 12

handle_retrans-Follows :
    (cfg : Transport) (env : Env) (flow : ℕ) (packet : Packet) (cur_time : ℕ)
    → Follows (handle_retrans cfg env flow packet cur_time)
unfolding handle_retrans
handle_retrans-Follows cfg env flow packet cur_time =
    search (follow, held-Follows, wait_again-Follows, litedt_data_post-Follows) depth 16

ready_packet-Follows : (key : ℕ × ℕ) → Follows (ready_packet key)
unfolding ready_packet
ready_packet-Follows key = search (follow, held-Follows) depth 9

top_case :
    {A : Type 0} (o : Option (ℕ × (ℕ × ℕ))) {m : Run A} {f : ℕ → ℕ × ℕ → Run A}
    → Follows m
    → ((t : ℕ) (key : ℕ × ℕ) → Follows (f t key))
    → Follows (elim o [ none ↦ m | some (t, key) ↦ f t key ])
top_case none p q = p
top_case (some (t, key)) p q = q t key

queue_send_while-Follows :
    (f : ℕ) (cfg : Transport) (env : Env) → Follows (queue_send_while f cfg env)
unfolding queue_send_while
queue_send_while-Follows zero cfg env = Follows-return tt
queue_send_while-Follows (suc f) cfg env = Follows-bind (Follows-gets _) (λ e.
    top_case (top_ready e.retrans_queue) (Follows-return tt) (λ t key.
      Follows-bind (ready_packet-Follows key) (λ packet.
        Follows-bind (handle_retrans-Follows cfg env key.0 packet _) (λ ret.
          Follows-bind (ready_packet-Follows key) (λ packet'.
            Follows-then (Follows-when _ (Follows-modify _ (λ e. refl) (λ e. refl)))
              (Follows-when _ (queue_send_while-Follows f cfg env)))))))

retrans_queue_send-Follows : (cfg : Transport) (env : Env) → Follows (retrans_queue_send cfg env)
unfolding retrans_queue_send
retrans_queue_send-Follows cfg env = search (follow, queue_send_while-Follows) depth 9

ready_while-Follows :
    (env : Env) (cur_time : ℕ) (flows : List ℕ) (next_time : ℕ)
    → Follows (ready_while env cur_time flows next_time)
unfolding ready_while
ready_while-Follows env cur_time [] next_time = Follows-return next_time
ready_while-Follows env cur_time (flow ∷ flows) next_time = Follows-bind (held-Follows flow) (λ c.
    Follows-bind (Follows-gets _) (λ q. Follows-bind (Follows-lift _) (λ r.
      Follows-then (Follows-mod_conn_same flow _ (λ c. refl)) (
        Follows-then (Follows-modify _ (λ e. refl) (λ e. refl)) (
          Follows-if _ (Follows-return _)
            (Follows-bind (Follows-lift _) (λ time. ready_while-Follows env cur_time flows _)))))))

check_retrans_queue-Follows :
    (cfg : Transport) (env : Env) (next_time : ℕ) → Follows (check_retrans_queue cfg env next_time)
unfolding check_retrans_queue
check_retrans_queue-Follows cfg env next_time = Follows-bind (Follows-gets _) (λ before.
    Follows-bind (ready_while-Follows env _ _ next_time) (λ next.
      Follows-then (retrans_queue_send-Follows cfg env) (
        Follows-bind (Follows-gets _) (λ e.
          top_case (top_ready e.retrans_queue) (Follows-return _) (λ t key.
            Follows-bind (ready_packet-Follows key)
              (λ packet. Follows-bind (Follows-lift _) (λ time. Follows-return _)))))))

send_while-Follows :
    (f : ℕ) (cfg : Transport) (env : Env) (flow next_time : ℕ)
    → Follows (send_while f cfg env flow next_time)
unfolding send_while
send_while-Follows zero cfg env flow next_time = Follows-return _
send_while-Follows (suc f) cfg env flow next_time =
    search (follow, held-Follows, litedt_data_post-Follows, send_while-Follows f) depth 18

deactivate-Follows : (flow : ℕ) → Follows (deactivate flow)
deactivate-Follows flow = search follow depth 9

rotate-Follows :
    (flow : ℕ) → Follows (modify (λ e. record e { active = rotate_to flow [] e.active }))
rotate-Follows flow = search follow depth 9

transmit_while-Follows :
    (cfg : Transport) (env : Env) (flows : List ℕ) (next_time : ℕ) (stop : Stop)
    → Follows (transmit_while cfg env flows next_time stop)
unfolding transmit_while
transmit_while-Follows cfg env [] next_time stop = Follows-return _
transmit_while-Follows cfg env (flow ∷ flows) next_time stop =
    Follows-bind (held-Follows flow) (λ c. Follows-bind (Follows-gets _) (λ e.
      Follows-if (leb e.host.snd_cwnd e.host.inflight || not (is_app_limited stop))
        (Follows-then (rotate-Follows flow) (Follows-return _))
        (Follows-if (leb 3 (rank c.state))
          (Follows-then (deactivate-Follows flow)
            (transmit_while-Follows cfg env flows next_time stop))
          (Follows-bind (send_while-Follows _ cfg env flow next_time) (λ r.
            Follows-bind (held-Follows flow) (λ c'.
              Follows-then (Follows-when (is_snd_queue_empty c') (deactivate-Follows flow))
                (transmit_while-Follows cfg env flows r.0 r.1)))))))

check_transmit_queue-Follows :
    (cfg : Transport) (env : Env) (next_time : ℕ) → Follows (check_transmit_queue cfg env next_time)
unfolding check_transmit_queue after_transmit
check_transmit_queue-Follows cfg env next_time = Follows-bind (Follows-gets _) (λ active.
    Follows-bind (transmit_while-Follows cfg env active next_time _) (λ r.
      Follows-then (Follows-modify (after_transmit r.1) (λ e. refl) (λ e. refl))
        (Follows-return _)))

pub run_connections-Follows :
    (cfg : Transport) (env : Env) (k : env.timewait_alloc ≡ true) (cur_time next_time : ℕ)
    → Follows (run_connections cfg env cur_time next_time)
unfolding run_connections
run_connections-Follows cfg env k cur_time next_time = Follows-bind (Follows-gets _) (λ before.
    Follows-bind (Follows-lift _) (λ filled.
      Follows-then (Follows-modify _ (λ e. refl) (λ e. refl)) (
        Follows-then (Follows-modify _ (λ e. refl) (λ e. refl)) (
          Follows-bind (check_connection_state-Follows cfg env k next_time) (λ a.
            Follows-bind (check_retrans_queue-Follows cfg env a) (λ b.
              Follows-bind (check_transmit_queue-Follows cfg env b) (λ c.
                Follows-then (Follows-modify _ (λ e. refl) (λ e. refl)) (Follows-return _))))))))
