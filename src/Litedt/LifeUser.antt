-- ===== src/Litedt/LifeUser.antt =====
-- The calls of the user of src/litedt.c move every flow along.
use liteflow.Base.{arith, ℕ, ◌==◌, ◌≡◌, true, not, if◌then◌else◌, Bool-cases, inl, inr, leb}
use liteflow.Config.{Transport}
use liteflow.Litedt.{
  Env, rank, Conn, ConnState, request, established, fin_wait, close_wait, closed,
  litedt_record_not_found,
}
use liteflow.Litedt.User.{
  litedt_connect, litedt_close, write_data, litedt_send, release_read, litedt_recv,
  litedt_recv_skip, sync_window,
}
use liteflow.Litedt.Follow.{
  Follows, Follows-bind, Follows-then, Follows-return, Follows-gets, Follows-lift, Follows-when,
  Follows-if, Follows-elim, Ahead, live,
}
use liteflow.Litedt.Life.{follow, litedt_mod_evtime-Follows, litedt_close_rsp-Follows}
use liteflow.Litedt.LifeTable.{
  create_connection-Follows, release_connection-Follows, Follows-find, mod_then,
}
use liteflow.Litedt.LifeTime.{litedt_conn_req-Follows, litedt_close_req-Follows}

pub litedt_connect-Follows :
    (cfg : Transport) (env : Env) (flow tunnel_id : ℕ)
    → Follows (litedt_connect cfg env flow tunnel_id)
unfolding litedt_connect
litedt_connect-Follows cfg env flow tunnel_id = Follows-bind (Follows-gets _) (λ online.
    Follows-bind (Follows-gets _) (λ conn. Follows-if _ (Follows-return _) (
      Follows-bind
        (Follows-elim conn (create_connection-Follows cfg env flow tunnel_id request)
          (λ c. Follows-return 0))
        (λ ret.
          Follows-then (Follows-when _ (litedt_conn_req-Follows env flow tunnel_id))
            (Follows-return _)))))

-- A connection before its close may go to FIN_WAIT.
opening-Ahead : (s : ConnState) → leb (rank s) 1 ≡ true → Ahead (live s) (live fin_wait)
opening-Ahead request h = record { passive_le = omega arith; active_le = omega arith }
opening-Ahead established h = record { passive_le = omega arith; active_le = omega arith }
opening-Ahead fin_wait h = ground arith
opening-Ahead close_wait h = ground arith
opening-Ahead closed h = ground arith

pub litedt_close-Follows :
    (env : Env) (k : env.timewait_alloc ≡ true) (flow : ℕ) → Follows (litedt_close env flow)
unfolding litedt_close
litedt_close-Follows env k flow =
    Follows-find flow _ (λ e. (Follows-return litedt_record_not_found).run e)
      (λ e c l. elim (Bool-cases (leb (rank c.state) 1)) [
        | inl t ↦
            rw (t, if◌then◌else◌)
              (mod_then e flow _ c _ l (opening-Ahead c.state t)
                (search (follow, litedt_close_req-Follows, litedt_mod_evtime-Follows) depth 12))
        | inr t ↦
            rw (t, if◌then◌else◌)
              ((Follows-if (not (rank c.state == 2))
                  (Follows-then (litedt_close_rsp-Follows env flow) (
                    Follows-then (release_connection-Follows env k flow)
                      (Follows-return {A = ℕ} 0)))
                  (Follows-return {A = ℕ} 0)).run
                e)
      ])

write_data-Follows :
    (env : Env) (flow : ℕ) (c : Conn) (bytes : ℕ → ℕ) (len : ℕ)
    → Follows (write_data env flow c bytes len)
unfolding write_data
write_data-Follows env flow c bytes len = search (follow, litedt_mod_evtime-Follows) depth 14

pub litedt_send-Follows :
    (env : Env) (flow : ℕ) (bytes : ℕ → ℕ) (len : ℕ) → Follows (litedt_send env flow bytes len)
unfolding litedt_send
litedt_send-Follows env flow bytes len =
    Follows-bind (Follows-gets _)
      (λ o. Follows-elim o (Follows-return _) (λ c. search (follow, write_data-Follows) depth 14))

release_read-Follows :
    (env : Env) (flow : ℕ) (c : Conn) (len : ℕ) → Follows (release_read env flow c len)
unfolding release_read sync_window
release_read-Follows env flow c len = search (follow, litedt_mod_evtime-Follows) depth 14

pub litedt_recv-Follows :
    (env : Env) (flow len : ℕ) (out : ℕ → ℕ) → Follows (litedt_recv env flow len out)
unfolding litedt_recv
litedt_recv-Follows env flow len out = Follows-bind (Follows-gets _) (λ o.
    Follows-elim o (Follows-return _) (λ c. Follows-bind (Follows-lift _) (λ r.
      Follows-then (Follows-when _ (release_read-Follows env flow c r.1)) (Follows-return _))))

pub litedt_recv_skip-Follows : (env : Env) (flow len : ℕ) → Follows (litedt_recv_skip env flow len)
unfolding litedt_recv_skip
litedt_recv_skip-Follows env flow len =
    Follows-bind (Follows-gets _)
      (λ o. Follows-elim o (Follows-return _) (λ c. search (follow, release_read-Follows) depth 14))
