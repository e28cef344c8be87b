-- ===== src/Litedt/Send.antt =====
-- The senders of src/litedt.c, but for data and acknowledgements.
use liteflow.Base.{ℕ, ◌-◌, ◌^◌, Bool, true, not, ◌&&◌, ltb, if◌then◌else◌, Option, none, some}
use liteflow.Base.Word.{add32}
use liteflow.Messages.{
  Body, Ping, ping_req, ping_rsp, connect_req, connect_rsp, close_req, close_rsp, connect_rst,
  put_le, no_bytes,
}
use liteflow.Messages.Codec.{size_of}
use liteflow.Litedt.{
  Engine, Env, Run, ◌>>=◌, ◌>>◌, return, gets, modify, emit, modify_stat, when, sent,
  litedt_send_flow_control,
}

-- send_error is counted where less than the message was sent; a negative result is -1 here.
abbrev pub send_status : Option ℕ → ℕ
send_status none = 2 ^ 32 - 1
send_status (some n) = n

abbrev pub is_short : Option ℕ → ℕ → Bool
is_short none len = true
is_short (some n) len = ltb n len

-- Takes `len` bytes from the credit, which stops at 0.
unfoldable pub spend : ℕ → Engine → Engine
spend len e = record e {
  host = record e.host { pacing_credit = e.host.pacing_credit - len };
  stat = record e.stat { send_bytes_stat = add32 e.stat.send_bytes_stat len };
}

-- The message goes to the log, which stands for what sys_send_cb sends.
unfoldable pub socket_send : Env → ℕ → Body → Bool → Run ℕ
unfolding spend
socket_send env flow body force = do
  e ← gets (λ e. e)
  if not force && ltb e.host.pacing_credit (size_of body)
      then return litedt_send_flow_control
      else (do
        modify (spend (size_of body))
        emit (sent flow body)
        when (is_short (env.sys_send flow body) (size_of body))
            (modify_stat (λ s. record s { send_error = add32 s.send_error 1 }))
        return (send_status (env.sys_send flow body)))

-- The twelve bytes that a ping request's token is made of.
abbrev pub ping_payload : ℕ → ℕ → ℕ → ℕ
ping_payload ping_id timestamp = put_le 4 ping_id (put_le 8 timestamp no_bytes)

-- The first `n` bytes of a digest.
abbrev pub cut : ℕ → (ℕ → ℕ) → ℕ → ℕ
cut n bytes i = if ltb i n then bytes i else 0

unfoldable pub litedt_ping_req : Env → Run Unit
unfolding socket_send
litedt_ping_req env = do
  modify (λ e. record e { ping_id = add32 e.ping_id 1; prior_ping_time = env.real_time })
  e ← gets (λ e. e)
  socket_send env 0
      (ping_req (record {
        node_id = e.node_id;
        ping_id = e.ping_id;
        timestamp = env.real_time;
        token = cut 32 (env.token e.node_id (ping_payload e.ping_id env.real_time) 12);
      }))
      true
  return tt

unfoldable pub litedt_ping_rsp : Env → Ping → Run Unit
unfolding socket_send
litedt_ping_rsp env req = do
  e ← gets (λ e. e)
  socket_send env 0
      (ping_rsp (record {
        node_id = e.node_id;
        ping_id = req.ping_id;
        timestamp = req.timestamp;
        token = cut 32 (env.token e.node_id req.token 32);
      }))
      true
  return tt

unfoldable pub litedt_conn_req : Env → ℕ → ℕ → Run Unit
unfolding socket_send
litedt_conn_req env flow tunnel_id = do socket_send env flow (connect_req tunnel_id) true; return tt

unfoldable pub litedt_conn_rsp : Env → ℕ → ℕ → Run Unit
unfolding socket_send
litedt_conn_rsp env flow status = do socket_send env flow (connect_rsp status) true; return tt

unfoldable pub litedt_close_req : Env → ℕ → ℕ → Run Unit
unfolding socket_send
litedt_close_req env flow last_seq = do socket_send env flow (close_req last_seq) true; return tt

unfoldable pub litedt_close_rsp : Env → ℕ → Run Unit
unfolding socket_send
litedt_close_rsp env flow = do socket_send env flow close_rsp true; return tt

unfoldable pub litedt_conn_rst : Env → ℕ → Run Unit
unfolding socket_send
litedt_conn_rst env flow = do socket_send env flow connect_rst true; return tt
