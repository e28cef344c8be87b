-- ===== src/Litedt/Life.antt =====
-- The senders and the handlers of src/litedt.c move every connection along its states.
use liteflow.Base.{ltb, ℕ, ◌≡◌, refl, Bool, true, false, if◌then◌else◌, Option, none, List, [], ◌∷◌}
use liteflow.Config.{Transport}
use liteflow.Messages.{Body, Ping}
use liteflow.Litedt.{Env, Run, Conn, ConnState, litedt_mod_evtime}
use liteflow.Litedt.Send.{
  spend, socket_send, litedt_conn_rsp, litedt_close_rsp, litedt_conn_rst, litedt_ping_rsp,
}
use liteflow.Litedt.Post.{litedt_data_ack}
use liteflow.Litedt.Control.{reject, go_online, accept_ping, litedt_on_ping_req, litedt_on_ping_rsp}
use liteflow.Litedt.Follow.{
  Follows, Follows-bind, Follows-then, Follows-return, Follows-gets, Follows-lift, Follows-when,
  Follows-if, Follows-elim, Follows-modify, Follows-mod_conn_same, Follows-mod_conn,
}

pub state_if :
    (b : Bool) (c d : Conn) (s : ConnState)
    → c.state ≡ s
    → d.state ≡ s
    → (if b then c else d).state ≡ s
state_if true c d s p q = p
state_if false c d s p q = q

pub ruleset follow = (
  Follows-bind, Follows-then, Follows-return, Follows-gets, Follows-lift, Follows-when, Follows-if,
  Follows-elim, Follows-modify, Follows-mod_conn_same,
)

pub socket_send-Follows :
    (env : Env) (flow : ℕ) (body : Body) (force : Bool) → Follows (socket_send env flow body force)
unfolding socket_send spend
socket_send-Follows env flow body force = search follow depth 9

pub litedt_mod_evtime-Follows :
    (env : Env) (o : Option ℕ) (time : ℕ) → Follows (litedt_mod_evtime env o time)
unfolding litedt_mod_evtime
litedt_mod_evtime-Follows env o time =
    Follows-then
      (Follows-elim o (Follows-return tt) (λ flow.
        Follows-mod_conn_same flow _ (λ c. state_if (ltb time c.next_sync_time) _ c _ refl refl)))
      (search follow depth 12)

pub litedt_data_ack-Follows :
    (cfg : Transport) (env : Env) (flow : ℕ) (list : Bool)
    → Follows (litedt_data_ack cfg env flow list)
unfolding litedt_data_ack
litedt_data_ack-Follows cfg env flow list =
    Follows-bind (Follows-gets _)
      (λ o. Follows-elim o (Follows-return _) (λ c. search (follow, socket_send-Follows) depth 14))

pub litedt_conn_rsp-Follows :
    (env : Env) (flow status : ℕ) → Follows (litedt_conn_rsp env flow status)
unfolding litedt_conn_rsp
litedt_conn_rsp-Follows env flow status = search (follow, socket_send-Follows) depth 9

pub litedt_close_rsp-Follows : (env : Env) (flow : ℕ) → Follows (litedt_close_rsp env flow)
unfolding litedt_close_rsp
litedt_close_rsp-Follows env flow = search (follow, socket_send-Follows) depth 9

pub litedt_conn_rst-Follows : (env : Env) (flow : ℕ) → Follows (litedt_conn_rst env flow)
unfolding litedt_conn_rst
litedt_conn_rst-Follows env flow = search (follow, socket_send-Follows) depth 9

pub litedt_ping_rsp-Follows : (env : Env) (req : Ping) → Follows (litedt_ping_rsp env req)
unfolding litedt_ping_rsp
litedt_ping_rsp-Follows env req = search (follow, socket_send-Follows) depth 9

pub litedt_on_ping_req-Follows :
    (cfg : Transport) (env : Env) (req : Ping) → Follows (litedt_on_ping_req cfg env req)
unfolding litedt_on_ping_req reject
litedt_on_ping_req-Follows cfg env req = search (follow, litedt_ping_rsp-Follows) depth 12

at_conns :
    {A : Type 0} (xs : List (ℕ × Conn)) {m n : Run A}
    → Follows m
    → Follows n
    → Follows (elim xs [ [] ↦ m | c ∷ cs ↦ n ])
at_conns [] p q = p
at_conns (c ∷ cs) p q = q

pub go_online-Follows : (env : Env) → Follows (go_online env)
unfolding go_online
go_online-Follows env = Follows-then (search follow depth 9) (
    Follows-then (search follow depth 9) (
      Follows-bind (Follows-gets _)
        (λ e. at_conns e.conns (Follows-return _) (litedt_mod_evtime-Follows env none _))))

pub litedt_on_ping_rsp-Follows :
    (cfg : Transport) (env : Env) (rsp : Ping) → Follows (litedt_on_ping_rsp cfg env rsp)
unfolding litedt_on_ping_rsp reject accept_ping
litedt_on_ping_rsp-Follows cfg env rsp = search (follow, go_online-Follows) depth 12
