-- ===== src/Litedt/Examples.antt =====
-- A host with one flow that waits for the answer to its request to close: that answer, and the loss of
-- the peer.
use liteflow.Base.{List, refl, true, none, some, [], ◌∷◌}
use liteflow.Messages.{close_rsp, no_bytes}
use liteflow.Messages.Codec.{encode, size_of}
use liteflow.Litedt.{Engine, Env, fin_wait, ◌>>◌, ◌>>=◌}
use liteflow.Litedt.Send.{litedt_ping_req, socket_send}
use liteflow.Litedt.Table.{new_conn, release_connection, release_all_connections, release_while}
use liteflow.Litedt.Control.{litedt_on_close_rsp}
use liteflow.Litedt.Event.{
  litedt_init, litedt_io_event, handle_parsed, dispatch, litedt_time_event, ping_if_due,
  expire_timewait, go_offline,
}
use liteflow.Litedt.Follow.{Ahead, status, live}
use liteflow.Litedt.Keep.{litedt_time_event-Ahead}
use liteflow.Litedt.Steps.{Call, datagram, recv_skip, run_call, run_calls, run_calls-Ahead}
use liteflow.Litedt.User.{litedt_recv_skip}
use liteflow.Samples.{config}

abbrev env : Env
env = record {
  now = 70_000_000;
  real_time = 90_000_000;
  alloc = true;
  timewait_alloc = true;
  fec_alloc = true;
  block_create = λ i. true;
  memory = no_bytes;
  sys_send = λ flow body. some (size_of body);
  connect = λ flow tunnel_id. 0;
  rto = λ rtt. 100_000;
  token = λ node_id payload len i. 0;
}

abbrev host : Engine
host = record (litedt_init config 5 60_000_000) {
  conns = (7, new_conn config 60_000_000 1 fin_wait) ∷ [];
}

abbrev calls : List (Env × Call)
calls = (env, recv_skip 7 0) ∷ (env, datagram (encode 7 close_rsp) (size_of close_rsp)) ∷ []

abbrev released : Engine
released = elim (run_calls config calls host) [ none ↦ host | some (e, a) ↦ e ]

run_calls-Ahead_example : Ahead (status host 7) (status released 7)
unfolding run_calls run_call litedt_recv_skip litedt_io_event handle_parsed dispatch
    litedt_on_close_rsp release_connection encode litedt_init new_conn ◌>>◌ ◌>>=◌
run_calls-Ahead_example = run_calls-Ahead config calls host released (refl, (refl, tt)) refl 7

abbrev late : Env
late = record env { now = 300_000_000 }

abbrev alone : Engine
alone = elim (litedt_time_event config late host) [ none ↦ host | some (e, a) ↦ e ]

litedt_time_event-Ahead_example : Ahead (live fin_wait) (status alone 7)
unfolding litedt_time_event ping_if_due litedt_ping_req socket_send expire_timewait go_offline
    release_all_connections release_while release_connection litedt_init new_conn ◌>>◌ ◌>>=◌
litedt_time_event-Ahead_example =
    litedt_time_event-Ahead config late host alone none 7 (new_conn config 60_000_000 1 fin_wait)
      refl refl refl
