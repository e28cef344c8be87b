-- ===== src/Litedt/LifeData.antt =====
-- The handlers of src/litedt.c for data, error correction and acknowledgements move every flow along.
use liteflow.Base.{ℕ, zero, suc, refl, ◌==◌, Bool, true, some}
use liteflow.Config.{Transport}
use liteflow.Messages.{DataPost, DataAck, DataFec}
use liteflow.Fec.{InsertRet, recovered}
use liteflow.Litedt.{Env, Run, return}
use liteflow.Litedt.Receive.{
  held, counts_dup, store_data, ack_while, acknowledge, notify_readable, data_recv, on_recovered,
  insert_data, litedt_on_data_recv, litedt_on_data_fec,
}
use liteflow.Litedt.Ack.{litedt_on_data_ack}
use liteflow.Litedt.Follow.{
  Follows, Follows-bind, Follows-then, Follows-return, Follows-gets, Follows-lift, Follows-when,
  Follows-if, Follows-elim, Follows-modify, Follows-mod_conn_same,
}
use liteflow.Litedt.Life.{follow, litedt_mod_evtime-Follows, litedt_data_ack-Follows}
use liteflow.Litedt.LifeControl.{establish-Follows}

pub held-Follows : (flow : ℕ) → Follows (held flow)
unfolding held
held-Follows flow = search follow depth 9

store_data-Follows :
    (cfg : Transport) (env : Env) (flow : ℕ) (post : DataPost) (insert : Run Unit)
    → Follows insert
    → Follows (store_data cfg env flow post insert)
unfolding store_data
store_data-Follows cfg env flow post insert p = Follows-bind (held-Follows flow) (λ c.
    Follows-bind (Follows-lift _) (λ r.
      Follows-then (Follows-when (counts_dup r.1) (Follows-modify _ (λ e. refl) (λ e. refl))) (
        Follows-then (Follows-mod_conn_same flow _ (λ c. refl)) (
          Follows-then
            (Follows-when _ (
              Follows-bind (Follows-lift _) (λ sacks.
                Follows-then (Follows-mod_conn_same flow _ (λ c. refl))
                  (Follows-when _ (Follows-then p (Follows-mod_conn_same flow _ (λ c. refl)))))))
            (Follows-return _)))))

ack_while-Follows :
    (f : ℕ) (cfg : Transport) (env : Env) (flow : ℕ) → Follows (ack_while f cfg env flow)
unfolding ack_while
ack_while-Follows zero cfg env flow = Follows-return tt
ack_while-Follows (suc f) cfg env flow =
    search (follow, held-Follows, litedt_data_ack-Follows, ack_while-Follows f) depth 12

acknowledge-Follows :
    (cfg : Transport) (env : Env) (flow cur_time : ℕ) → Follows (acknowledge cfg env flow cur_time)
unfolding acknowledge
acknowledge-Follows cfg env flow cur_time =
    search
      (follow, held-Follows, litedt_data_ack-Follows, ack_while-Follows, litedt_mod_evtime-Follows)
      depth 16

notify_readable-Follows : (flow : ℕ) (b : Bool) → Follows (notify_readable flow b)
unfolding notify_readable
notify_readable-Follows flow b = search (follow, held-Follows) depth 12

data_recv-Follows :
    (cfg : Transport) (env : Env) (flow : ℕ) (post : DataPost) (insert : Run Unit)
    → Follows insert
    → Follows (data_recv cfg env flow post insert)
unfolding data_recv
data_recv-Follows cfg env flow post insert p = Follows-bind (Follows-gets _) (λ t.
    Follows-bind (Follows-gets _) (λ o. Follows-elim o (Follows-return _) (λ c.
      Follows-then (establish-Follows flow) (
        Follows-if (post.len == 0)
          (Follows-then (litedt_data_ack-Follows cfg env flow true) (
            Follows-then (Follows-mod_conn_same flow _ (λ c. refl)) (
              Follows-then (litedt_mod_evtime-Follows env (some flow) _)
                (Follows-return {A = ℕ} 0))))
          (Follows-bind (store_data-Follows cfg env flow post insert p) (λ b.
            Follows-then (acknowledge-Follows cfg env flow t)
              (Follows-then (notify_readable-Follows flow b) (Follows-return {A = ℕ} 0))))))))

on_recovered-Follows :
    (cfg : Transport) (env : Env) (flow : ℕ) (ret : InsertRet)
    → Follows (on_recovered cfg env flow ret)
unfolding on_recovered
on_recovered-Follows cfg env flow (recovered post) =
    Follows-then (data_recv-Follows cfg env flow post (return tt) (Follows-return tt))
      (search follow depth 9)
on_recovered-Follows cfg env flow _ = Follows-return tt

insert_data-Follows :
    (cfg : Transport) (env : Env) (flow : ℕ) (post : DataPost)
    → Follows (insert_data cfg env flow post)
unfolding insert_data
insert_data-Follows cfg env flow post = search (follow, held-Follows, on_recovered-Follows) depth 14

pub litedt_on_data_recv-Follows :
    (cfg : Transport) (env : Env) (flow : ℕ) (post : DataPost)
    → Follows (litedt_on_data_recv cfg env flow post)
unfolding litedt_on_data_recv
litedt_on_data_recv-Follows cfg env flow post =
    data_recv-Follows cfg env flow post (insert_data cfg env flow post)
      (insert_data-Follows cfg env flow post)

pub litedt_on_data_fec-Follows :
    (cfg : Transport) (env : Env) (flow : ℕ) (f : DataFec)
    → Follows (litedt_on_data_fec cfg env flow f)
unfolding litedt_on_data_fec
litedt_on_data_fec-Follows cfg env flow f = Follows-bind (Follows-gets _) (λ o.
    Follows-elim o (Follows-return _)
      (λ c. search (follow, establish-Follows, held-Follows, on_recovered-Follows) depth 18))

pub litedt_on_data_ack-Follows :
    (cfg : Transport) (env : Env) (flow : ℕ) (ack : DataAck)
    → Follows (litedt_on_data_ack cfg env flow ack)
unfolding litedt_on_data_ack
litedt_on_data_ack-Follows cfg env flow ack = Follows-bind (Follows-gets _) (λ o.
    Follows-elim o (Follows-return _)
      (λ c. Follows-then (establish-Follows flow) (search follow depth 18)))
