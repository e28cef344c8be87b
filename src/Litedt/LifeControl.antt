-- ===== src/Litedt/LifeControl.antt =====
-- The handlers of src/litedt.c for the handshake and the close move every flow along.
use liteflow.Base.{
  true, ℕ, ◌+◌, ◌≡◌, arith, refl, ◌==◌, Bool, false, if◌then◌else◌, Bool-cases, inl, inr, some,
}
use liteflow.Config.{Transport}
use liteflow.Litedt.{
  Engine, Env, Run, ◌>>◌, return, lookup, Conn, ConnState, request, established, fin_wait,
  close_wait, closed, mod_conn, litedt_mod_evtime, rank,
}
use liteflow.Litedt.Table.{release_connection}
use liteflow.Litedt.Control.{
  establish, litedt_on_conn_req, litedt_on_conn_rsp, litedt_on_close_req, litedt_on_close_rsp,
  litedt_on_conn_rst, is_complete,
}
use liteflow.Litedt.Send.{litedt_close_rsp}
use liteflow.Litedt.User.{normal_ack_delay}
use liteflow.Litedt.Follow.{
  Follows, Follows-bind, Follows-then, Follows-return, Follows-gets, Follows-elim, Follows-mod_conn,
  Ahead, Along-refl, Outcome, live,
}
use liteflow.Litedt.Life.{
  follow, litedt_mod_evtime-Follows, litedt_data_ack-Follows, litedt_conn_rsp-Follows,
  litedt_close_rsp-Follows,
}
use liteflow.Litedt.LifeTable.{
  Follows-find, mod_then, create_connection-Follows, release_connection-Follows,
}

-- establish moves only from REQUEST.
establish-Ahead :
    (s : ConnState) (c : Conn) → c.state ≡ s → Ahead (live c.state) (live (establish c).state)
unfolding establish
establish-Ahead request c e = rw e (record { passive_le = omega arith; active_le = omega arith })
establish-Ahead established c e =
    rw e (record { passive_le = omega arith; active_le = omega arith })
establish-Ahead fin_wait c e = rw e (record { passive_le = omega arith; active_le = omega arith })
establish-Ahead close_wait c e = rw e (record { passive_le = omega arith; active_le = omega arith })
establish-Ahead closed c e = rw e (record { passive_le = omega arith; active_le = omega arith })

pub establish-Follows : (flow : ℕ) → Follows (mod_conn flow establish)
establish-Follows flow = Follows-mod_conn flow establish (λ c. establish-Ahead c.state c refl)

pub litedt_on_conn_req-Follows :
    (cfg : Transport) (env : Env) (flow tunnel_id : ℕ) (no_rsp : Bool)
    → Follows (litedt_on_conn_req cfg env flow tunnel_id no_rsp)
unfolding litedt_on_conn_req
litedt_on_conn_req-Follows cfg env flow tunnel_id no_rsp = Follows-bind (Follows-gets _) (λ o.
    Follows-elim o
      (Follows-bind (create_connection-Follows cfg env flow tunnel_id established)
        (λ ret. search (follow, litedt_conn_rsp-Follows, litedt_data_ack-Follows) depth 14))
      (λ c. search (follow, litedt_conn_rsp-Follows) depth 9))

pub litedt_on_conn_rsp-Follows :
    (cfg : Transport) (env : Env) (k : env.timewait_alloc ≡ true) (flow s : ℕ)
    → Follows (litedt_on_conn_rsp cfg env flow s)
unfolding litedt_on_conn_rsp
litedt_on_conn_rsp-Follows cfg env k flow s = Follows-bind (Follows-gets _) (λ o.
    Follows-elim o (Follows-return _) (λ c.
      search (follow, establish-Follows, litedt_data_ack-Follows, release_connection-Follows) depth
        14))

pub litedt_on_close_rsp-Follows :
    (env : Env) (k : env.timewait_alloc ≡ true) (flow : ℕ) → Follows (litedt_on_close_rsp env flow)
unfolding litedt_on_close_rsp
litedt_on_close_rsp-Follows env k flow = Follows-bind (Follows-gets _) (λ o.
    Follows-elim o (Follows-return _) (λ c. search (follow, release_connection-Follows) depth 14))

-- A connection that is not in FIN_WAIT may go to CLOSED.
closing-Ahead : (s : ConnState) → (rank s == 2) ≡ false → Ahead (live s) (live closed)
closing-Ahead request n = record { passive_le = omega arith; active_le = omega arith }
closing-Ahead established n = record { passive_le = omega arith; active_le = omega arith }
closing-Ahead fin_wait n = ground arith
closing-Ahead close_wait n = record { passive_le = omega arith; active_le = omega arith }
closing-Ahead closed n = record { passive_le = omega arith; active_le = omega arith }

pub litedt_on_conn_rst-Follows :
    (env : Env) (k : env.timewait_alloc ≡ true) (flow : ℕ) → Follows (litedt_on_conn_rst env flow)
unfolding litedt_on_conn_rst
litedt_on_conn_rst-Follows env k flow = Follows-bind (Follows-gets _) (λ cur_time.
    Follows-find flow _ (λ e. (Follows-return {A = ℕ} 0).run e)
      (λ e c l. elim (Bool-cases (rank c.state == 2)) [
        | inl t ↦
            rw (t, if◌then◌else◌)
              ((Follows-then (release_connection-Follows env k flow) (Follows-return {A = ℕ} 0)).run
                e)
        | inr t ↦
            rw (t, if◌then◌else◌)
              (mod_then e flow _ c _ l (closing-Ahead c.state t)
                (search (follow, litedt_mod_evtime-Follows) depth 9))
      ]))

-- Where the connection was before the request to close it.
abbrev pub close_at : Env → ℕ → ℕ → ℕ → Conn → ConnState → Run ℕ
close_at env flow last_seq cur_time c s = elim s [
  | fin_wait ↦ do release_connection env flow; litedt_close_rsp env flow; return 0
  | closed ↦ return 0
  | _ ↦
      if is_complete c last_seq
      then (do
        mod_conn flow (λ c. record c { state = closed })
        litedt_close_rsp env flow
        litedt_mod_evtime env (some flow) cur_time
        return 0)
      else (do
        mod_conn flow (λ c. record c { state = close_wait })
        litedt_mod_evtime env (some flow) (cur_time + normal_ack_delay)
        return 0)
]

-- The end of a close, whatever is done after the write of the state.
close_branch :
    (env : Env) (flow last_seq cur_time : ℕ) (c : Conn) (e : Engine)
    → lookup flow e.conns ≡ some c
    → Ahead (live c.state) (live closed)
    → Ahead (live c.state) (live close_wait)
    → Outcome e (close_at env flow last_seq cur_time c request e)
close_branch env flow last_seq cur_time c e l p q = elim (Bool-cases (is_complete c last_seq)) [
  | inl t ↦
      rw (t, if◌then◌else◌)
        (mod_then e flow _ c _ l p
          (search (follow, litedt_close_rsp-Follows, litedt_mod_evtime-Follows) depth 9))
  | inr t ↦
      rw (t, if◌then◌else◌)
        (mod_then e flow _ c _ l q (search (follow, litedt_mod_evtime-Follows) depth 9))
]

close_at-Outcome :
    (env : Env) (k : env.timewait_alloc ≡ true) (flow last_seq cur_time : ℕ) (c : Conn)
    (s : ConnState) (e : Engine)
    → lookup flow e.conns ≡ some c
    → c.state ≡ s
    → Outcome e (close_at env flow last_seq cur_time c s e)
close_at-Outcome env k flow last_seq cur_time c fin_wait e l q =
    (Follows-then (release_connection-Follows env k flow)
        (Follows-then (litedt_close_rsp-Follows env flow) (Follows-return {A = ℕ} 0))).run
      e
close_at-Outcome env k flow last_seq cur_time c closed e l q = Along-refl e
close_at-Outcome env k flow last_seq cur_time c request e l q =
    close_branch env flow last_seq cur_time c e l
      (rw q (record { passive_le = omega arith; active_le = omega arith }))
      (rw q (record { passive_le = omega arith; active_le = omega arith }))
close_at-Outcome env k flow last_seq cur_time c established e l q =
    close_branch env flow last_seq cur_time c e l
      (rw q (record { passive_le = omega arith; active_le = omega arith }))
      (rw q (record { passive_le = omega arith; active_le = omega arith }))
close_at-Outcome env k flow last_seq cur_time c close_wait e l q =
    close_branch env flow last_seq cur_time c e l
      (rw q (record { passive_le = omega arith; active_le = omega arith }))
      (rw q (record { passive_le = omega arith; active_le = omega arith }))

pub litedt_on_close_req-Follows :
    (env : Env) (k : env.timewait_alloc ≡ true) (flow last_seq : ℕ)
    → Follows (litedt_on_close_req env flow last_seq)
unfolding litedt_on_close_req
litedt_on_close_req-Follows env k flow last_seq = Follows-bind (Follows-gets _) (λ cur_time.
    Follows-find flow _
      (λ e. (Follows-then (litedt_close_rsp-Follows env flow) (Follows-return {A = ℕ} 0)).run e)
      (λ e c l. close_at-Outcome env k flow last_seq cur_time c c.state e l refl))
