-- ===== src/Messages/Codec.antt =====
-- The commands of the messages, their encoding, and the checks of litedt_io_event in src/litedt.c on
-- the length of a datagram before a handler reads it.
use liteflow.Base.{ℕ, ◌+◌, ◌*◌, ◌==◌, not, ◌||◌, ltb, if◌then◌else◌, length}
use liteflow.Messages.{
  Body, ping_req, ping_rsp, data_post, data_ack, connect_req, connect_rsp, close_req, close_rsp,
  connect_rst, connect_data, data_fec, litedt_version, put_le, get_le, skip, no_bytes, post_bytes,
  read_post, ping_bytes, read_ping, fec_bytes, read_fec, ack_bytes, read_ack, header_size,
  ping_size, post_size, ack_header_size, fec_header_size,
}

-- The enumeration LITEDT_CMD_ID.
abbrev pub cmd_of : Body → ℕ
cmd_of (ping_req p) = 0x10
cmd_of (ping_rsp p) = 0x11
cmd_of (data_post p) = 0x20
cmd_of (data_ack a) = 0x21
cmd_of (connect_req t) = 0x22
cmd_of (connect_rsp s) = 0x23
cmd_of (close_req q) = 0x24
cmd_of close_rsp = 0x25
cmd_of connect_rst = 0x26
cmd_of (connect_data t p) = 0x27
cmd_of (data_fec f) = 0x30

abbrev pub body_bytes : Body → ℕ → ℕ
body_bytes (ping_req p) = ping_bytes p
body_bytes (ping_rsp p) = ping_bytes p
body_bytes (data_post p) = post_bytes p
body_bytes (data_ack a) = ack_bytes a
body_bytes (connect_req t) = put_le 2 t no_bytes
body_bytes (connect_rsp s) = put_le 4 s no_bytes
body_bytes (close_req q) = put_le 4 q no_bytes
body_bytes close_rsp = no_bytes
body_bytes connect_rst = no_bytes
body_bytes (connect_data t p) = put_le 2 t (post_bytes p)
body_bytes (data_fec f) = fec_bytes f

-- The length that is sent: plen, as the senders compute it.
abbrev pub size_of : Body → ℕ
size_of (ping_req p) = header_size + ping_size
size_of (ping_rsp p) = header_size + ping_size
size_of (data_post p) = header_size + post_size + p.len
size_of (data_ack a) = header_size + ack_header_size + 8 * length a.acks
size_of (connect_req t) = header_size + 2
size_of (connect_rsp s) = header_size + 4
size_of (close_req q) = header_size + 4
size_of close_rsp = header_size
size_of connect_rst = header_size
size_of (connect_data t p) = header_size + 2 + post_size + p.len
size_of (data_fec f) = header_size + fec_header_size + f.fec_len

-- build_litedt_header, before the body.
unfoldable pub encode : ℕ → Body → ℕ → ℕ
encode flow body =
    put_le 2 litedt_version (put_le 1 0 (put_le 1 (cmd_of body) (put_le 4 flow (body_bytes body))))

-- What litedt_io_event makes of a datagram before it calls a handler: a wrong packet is counted as one,
-- and one that is too short for its command, or of an unknown command, is ignored.
pub data Parsed : Type 0 where
  wrong_packet ignored : Parsed
  parsed : ℕ → Body → Parsed

-- A body that needs `size` bytes.
abbrev pub if_long : ℕ → ℕ → ℕ → Body → Parsed
if_long recv_len size flow body =
    if ltb recv_len (header_size + size) then ignored else parsed flow body

-- The switch; `b` is the bytes behind the header.
unfoldable pub parse_body : ℕ → ℕ → ℕ → (ℕ → ℕ) → Parsed
parse_body recv_len cmd flow b =
    if cmd == 0x10
    then if_long recv_len ping_size flow (ping_req (read_ping b))
    else if cmd == 0x11
    then if_long recv_len ping_size flow (ping_rsp (read_ping b))
    else if cmd == 0x22
    then if_long recv_len 2 flow (connect_req (get_le 2 b))
    else if cmd == 0x23
    then if_long recv_len 4 flow (connect_rsp (get_le 4 b))
    else if cmd == 0x20
    then (let p = read_post b in if_long recv_len (post_size + p.len) flow (data_post p))
    else if cmd == 0x21
    then (let a = read_ack b in
        if_long recv_len (ack_header_size + length a.acks * 8) flow (data_ack a))
    else if cmd == 0x24
    then if_long recv_len 4 flow (close_req (get_le 4 b))
    else if cmd == 0x25
    then parsed flow close_rsp
    else if cmd == 0x26
    then parsed flow connect_rst
    else if cmd == 0x27
    then (let p = read_post (skip 2 b) in
        if_long recv_len (2 + post_size + p.len) flow (connect_data (get_le 2 b) p))
    else if cmd == 0x30
    then (let f = read_fec b in if_long recv_len (fec_header_size + f.fec_len) flow (data_fec f))
    else ignored

unfoldable pub parse : ℕ → (ℕ → ℕ) → Parsed
unfolding parse_body
parse recv_len b =
    if ltb recv_len header_size || not (get_le 2 b == litedt_version)
    then wrong_packet
    else parse_body recv_len (get_le 1 (skip 3 b)) (get_le 4 (skip 4 b)) (skip 8 b)
