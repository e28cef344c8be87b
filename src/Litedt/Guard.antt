-- ===== src/Litedt/Guard.antt =====
-- Every datagram moves every flow along, litedt_io_event of src/litedt.c.
use liteflow.Base.{true, ◌≡◌, ℕ, refl}
use liteflow.Config.{Transport}
use liteflow.Messages.{
  Body, ping_req, ping_rsp, data_post, data_ack, connect_req, connect_rsp, close_req, close_rsp,
  connect_rst, connect_data, data_fec,
}
use liteflow.Messages.Codec.{Parsed, wrong_packet, ignored, parsed, parse}
use liteflow.Litedt.{Env}
use liteflow.Litedt.Event.{dispatch, handle_parsed, count_datagram, litedt_io_event}
use liteflow.Litedt.Follow.{Follows, Follows-then, Follows-return, Follows-modify}
use liteflow.Litedt.Life.{
  follow, litedt_conn_rst-Follows, litedt_on_ping_req-Follows, litedt_on_ping_rsp-Follows,
}
use liteflow.Litedt.LifeControl.{
  litedt_on_conn_req-Follows, litedt_on_conn_rsp-Follows, litedt_on_close_req-Follows,
  litedt_on_close_rsp-Follows, litedt_on_conn_rst-Follows,
}
use liteflow.Litedt.LifeData.{
  litedt_on_data_recv-Follows, litedt_on_data_fec-Follows, litedt_on_data_ack-Follows,
}

dispatch-Follows :
    (cfg : Transport) (env : Env) (k : env.timewait_alloc ≡ true) (recv_len flow : ℕ) (body : Body)
    → Follows (dispatch cfg env recv_len flow body)
unfolding dispatch
dispatch-Follows cfg env k recv_len flow (ping_req p) = litedt_on_ping_req-Follows cfg env p
dispatch-Follows cfg env k recv_len flow (ping_rsp p) = litedt_on_ping_rsp-Follows cfg env p
dispatch-Follows cfg env k recv_len flow (connect_req t) =
    search (follow, litedt_on_conn_req-Follows) depth 9
dispatch-Follows cfg env k recv_len flow (connect_rsp s) =
    litedt_on_conn_rsp-Follows cfg env k flow s
dispatch-Follows cfg env k recv_len flow (data_post p) =
    search (follow, litedt_on_data_recv-Follows) depth 9
dispatch-Follows cfg env k recv_len flow (data_ack a) =
    search (follow, litedt_on_data_ack-Follows) depth 9
dispatch-Follows cfg env k recv_len flow (close_req q) =
    search (follow, litedt_on_close_req-Follows) depth 9
dispatch-Follows cfg env k recv_len flow close_rsp =
    search (follow, litedt_on_close_rsp-Follows) depth 9
dispatch-Follows cfg env k recv_len flow connect_rst =
    search (follow, litedt_on_conn_rst-Follows) depth 9
dispatch-Follows cfg env k recv_len flow (connect_data t p) =
    search (follow, litedt_on_conn_req-Follows, litedt_on_data_recv-Follows) depth 9
dispatch-Follows cfg env k recv_len flow (data_fec f) = litedt_on_data_fec-Follows cfg env flow f

handle_parsed-Follows :
    (cfg : Transport) (env : Env) (k : env.timewait_alloc ≡ true) (recv_len : ℕ) (p : Parsed)
    → Follows (handle_parsed cfg env recv_len p)
unfolding handle_parsed
handle_parsed-Follows cfg env k recv_len wrong_packet = search follow depth 9
handle_parsed-Follows cfg env k recv_len ignored = Follows-return tt
handle_parsed-Follows cfg env k recv_len (parsed flow body) =
    search (follow, dispatch-Follows, litedt_conn_rst-Follows) depth 9

pub litedt_io_event-Follows :
    (cfg : Transport) (env : Env) (k : env.timewait_alloc ≡ true) (buf : ℕ → ℕ) (recv_len : ℕ)
    → Follows (litedt_io_event cfg env buf recv_len)
unfolding litedt_io_event count_datagram
litedt_io_event-Follows cfg env k buf recv_len =
    Follows-then (Follows-modify (count_datagram env recv_len) (λ e. refl) (λ e. refl))
      (handle_parsed-Follows cfg env k recv_len (parse recv_len buf))
