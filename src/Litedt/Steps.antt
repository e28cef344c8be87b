-- ===== src/Litedt/Steps.antt =====
-- Any order of datagrams and of calls of the user, src/litedt.c.
use mathlib.Core.Path.{subst}
use liteflow.Base.{true, ℕ, ◌≡◌, Option, some, List, [], ◌∷◌}
use liteflow.Config.{Transport}
use liteflow.Litedt.{Engine, Env, Run, ◌>>=◌, ◌>>◌, return}
use liteflow.Litedt.User.{litedt_connect, litedt_close, litedt_send, litedt_recv, litedt_recv_skip}
use liteflow.Litedt.Event.{litedt_io_event}
use liteflow.Litedt.Follow.{
  Follows, Follows-bind, Follows-then, Follows-return, Outcome, Ahead, status,
}
use liteflow.Litedt.LifeUser.{
  litedt_connect-Follows, litedt_close-Follows, litedt_send-Follows, litedt_recv-Follows,
  litedt_recv_skip-Follows,
}
use liteflow.Litedt.Guard.{litedt_io_event-Follows}

-- A datagram that arrives, or a call.
pub data Call : Type 0 where
  datagram : (ℕ → ℕ) → ℕ → Call
  connect recv_skip : ℕ → ℕ → Call
  close : ℕ → Call
  send : ℕ → (ℕ → ℕ) → ℕ → Call
  recv : ℕ → ℕ → (ℕ → ℕ) → Call

abbrev discard : {A : Type 0} → Run A → Run Unit
discard m = do a ← m; return tt

unfoldable pub run_call : Transport → Env → Call → Run Unit
unfolding litedt_io_event litedt_connect litedt_close litedt_send litedt_recv litedt_recv_skip
run_call cfg env (datagram buf recv_len) = litedt_io_event cfg env buf recv_len
run_call cfg env (connect flow tunnel_id) = discard (litedt_connect cfg env flow tunnel_id)
run_call cfg env (recv_skip flow len) = litedt_recv_skip env flow len
run_call cfg env (close flow) = discard (litedt_close env flow)
run_call cfg env (send flow bytes len) = discard (litedt_send env flow bytes len)
run_call cfg env (recv flow len out) = discard (litedt_recv env flow len out)

-- Each call meets a world of its own.
unfoldable pub run_calls : Transport → List (Env × Call) → Run Unit
unfolding run_call
run_calls cfg [] = return tt
run_calls cfg ((env, call) ∷ calls) = do run_call cfg env call; run_calls cfg calls

discard-Follows : {A : Type 0} {m : Run A} → Follows m → Follows (discard m)
discard-Follows p = Follows-bind p (λ a. Follows-return tt)

run_call-Follows :
    (cfg : Transport) (env : Env) (k : env.timewait_alloc ≡ true) (call : Call)
    → Follows (run_call cfg env call)
unfolding run_call
run_call-Follows cfg env k (datagram buf recv_len) = litedt_io_event-Follows cfg env k buf recv_len
run_call-Follows cfg env k (connect flow tunnel_id) =
    discard-Follows (litedt_connect-Follows cfg env flow tunnel_id)
run_call-Follows cfg env k (recv_skip flow len) = litedt_recv_skip-Follows env flow len
run_call-Follows cfg env k (close flow) = discard-Follows (litedt_close-Follows env k flow)
run_call-Follows cfg env k (send flow bytes len) =
    discard-Follows (litedt_send-Follows env flow bytes len)
run_call-Follows cfg env k (recv flow len out) =
    discard-Follows (litedt_recv-Follows env flow len out)

-- Every queue_append of a time-wait record works.
abbrev pub IsKept : List (Env × Call) → Type 0
IsKept [] = Unit
IsKept ((env, call) ∷ calls) = (env.timewait_alloc ≡ true) × IsKept calls

run_calls-Follows :
    (cfg : Transport) (calls : List (Env × Call)) → IsKept calls → Follows (run_calls cfg calls)
unfolding run_calls
run_calls-Follows cfg [] k = Follows-return tt
run_calls-Follows cfg ((env, call) ∷ calls) k =
    Follows-then (run_call-Follows cfg env k.0 call) (run_calls-Follows cfg calls k.1)

Outcome-along :
    (e e' : Engine) (o : Option (Engine × Unit))
    → Outcome e o
    → o ≡ some (e', tt)
    → (flow : ℕ) → Ahead (status e flow) (status e' flow)
Outcome-along e e' o p q = subst (Outcome e) q p

-- Whatever datagrams arrive and whatever the user calls of litedt_connect, litedt_close, litedt_send,
-- litedt_recv and litedt_recv_skip, in any order and with any parameters but that queue_append of a
-- time-wait record works, where they end without a fault each flow has moved along or stayed: from unknown over REQUEST and ESTABLISHED to the states of
-- a close and to TIME_WAIT. A flow that is closing is never ESTABLISHED again, one in FIN_WAIT goes only
-- to TIME_WAIT, and one in TIME_WAIT stays there.
pub run_calls-Ahead :
    (cfg : Transport) (calls : List (Env × Call)) (e e' : Engine)
    → IsKept calls
    → run_calls cfg calls e ≡ some (e', tt)
    → (flow : ℕ) → Ahead (status e flow) (status e' flow)
run_calls-Ahead cfg calls e e' k h =
    Outcome-along e e' (run_calls cfg calls e) ((run_calls-Follows cfg calls k).run e) h
