-- ===== src/Litedt/Post.antt =====
-- Data and acknowledgements on their way out: litedt_data_post and litedt_data_ack of src/litedt.c, and
-- fec_post of src/fec.c, which sends.
use liteflow.Base.{
  ℕ, ◌^◌, ◌==◌, Bool, true, not, ◌&&◌, ◌||◌, ltb, if◌then◌else◌, Option, none, some, [],
}
use liteflow.Base.Word.{add32, sub32}
use liteflow.Config.{Transport}
use liteflow.Rbuffer.{rbuf_read}
use liteflow.Retrans.{create_packet_entry}
use liteflow.Fec.{fec_post, fec_push_data}
use liteflow.Messages.{
  DataPost, DataFec, Body, data_post, connect_data, data_ack, data_fec, no_bytes,
}
use liteflow.Messages.Codec.{size_of}
use liteflow.Litedt.{
  Env, Run, ◌>>=◌, ◌>>◌, return, gets, lift, modify, modify_stat, when, rank, Conn, find_connection,
  mod_conn, is_online, litedt_client_offline, litedt_parameter_error, litedt_record_not_found,
  litedt_seq_out_of_range, litedt_send_flow_control,
}
use liteflow.Litedt.Send.{socket_send}
use liteflow.Litedt.Sack.{take_sacks}

-- What fec_post and fec_push_data send, where they send.
unfoldable pub send_fec : Env → ℕ → Option DataFec → Run Unit
unfolding socket_send
send_fec env flow none = return tt
send_fec env flow (some f) = do
  socket_send env flow (data_fec f) true
  modify_stat (λ s. record s { fec_packet_post = add32 s.fec_packet_post 1 })

-- fec_post for a connection that the caller holds.
unfoldable pub conn_fec_post : Transport → Env → ℕ → Conn → Run Unit
unfolding send_fec
conn_fec_post cfg env flow c = do
  mod_conn flow (λ c. record c { fec = (fec_post cfg c.fec).0 })
  send_fec env flow (fec_post cfg c.fec).1

-- The two tests on the send window.
unfoldable pub is_outside_window : Conn → ℕ → ℕ → Bool
is_outside_window c seq len =
    ltb c.swin_size (sub32 seq c.swin_start) || ltb c.swin_size (sub32 (add32 seq len) c.swin_start)

-- The message, by the state of the connection.
unfoldable pub post_body : Conn → DataPost → Body
post_body c post = if rank c.state == 0 then connect_data c.tunnel_id post else data_post post

-- The part of litedt_data_post for a packet with data: its entry in the retransmission module.
unfoldable pub record_packet : Transport → Env → ℕ → Conn → ℕ → ℕ → ℕ → ℕ → Run Unit
unfolding create_packet_entry
record_packet cfg env flow c seq len fec_seq fec_index = do
  modify_stat (λ s. record s { data_packet_post = add32 s.data_packet_post 1 })
  host ← gets (λ e. e.host)
  (host', rt, ret) ←
      lift
        (create_packet_entry cfg env.rto env.now env.alloc host c.retrans seq len fec_seq fec_index)
  modify (λ e. record e { host = host' })
  mod_conn flow (λ c. record c { retrans = rt })

-- From the message on. The FEC group takes the packet also where it was not sent.
unfoldable pub send_post : Transport → Env → ℕ → Conn → DataPost → Bool → Run ℕ
unfolding socket_send send_fec post_body
send_post cfg env flow c post fec_post = do
  send_ret ← socket_send env flow (post_body c post) (post.len == 0)
  when (ltb send_ret (2 ^ 31)) (
      modify_stat
        (λ s. record s { send_bytes_data = add32 s.send_bytes_data (size_of (post_body c post)) }))
  when (c.fec_enabled && (not (cfg.fec_group_size == 0) && fec_post)) (do
    mod_conn flow (λ c. record c { fec = (fec_push_data cfg c.fec post).0 })
    send_fec env flow (fec_push_data cfg c.fec post).1)
  if send_ret == litedt_send_flow_control then return litedt_send_flow_control else return 0

unfoldable pub litedt_data_post : Transport → Env → ℕ → ℕ → ℕ → ℕ → ℕ → Bool → Run ℕ
unfolding is_outside_window record_packet send_post
litedt_data_post cfg env flow seq len fec_seq fec_index fec_post = do
  e ← gets (λ e. e)
  conn ← find_connection flow
  if not (is_online e)
      then return litedt_client_offline
      else (if ltb e.mss len then return litedt_parameter_error else elim conn [
        | none ↦ return litedt_record_not_found
        | some c ↦ if is_outside_window c seq len then return litedt_seq_out_of_range else (do
          bytes ← lift (rbuf_read c.send_buf seq len no_bytes)
          let post : DataPost = record {
            seq = seq;
            len = len;
            fec_seq = fec_seq;
            fec_index = fec_index;
            payload = bytes;
          }
          when (not (len == 0)) (record_packet cfg env flow c seq len fec_seq fec_index)
          send_post cfg env flow c post fec_post)
      ])

unfoldable pub litedt_data_ack : Transport → Env → ℕ → Bool → Run ℕ
unfolding take_sacks socket_send
litedt_data_ack cfg env flow ack_list = do
  conn ← find_connection flow
  elim conn [
    | none ↦ return litedt_record_not_found
    | some c ↦ do
      let taken = if ack_list then take_sacks cfg.ack_size 0 c.sack_map else ([], c.sack_map)
      let body =
          data_ack (record { win_start = c.rwin_start; win_size = c.rwin_size; acks = taken.0 })
      mod_conn flow (λ c. record c { sack_map = taken.1 })
      socket_send env flow body true
      modify_stat (λ s. record s { send_bytes_ack = add32 s.send_bytes_ack (size_of body) })
      return 0
  ]
