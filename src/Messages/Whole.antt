-- ===== src/Messages/Whole.antt =====
-- A message that is sent is read back as it was.
use liteflow.Base.{
  ℕ, ◌+◌, ◌*◌, ◌^◌, ◌≤◌, ◌<◌, ◌≡◌, arith, refl, ap, ◌∙◌, List, [], ◌∷◌, length, All,
}
use mathlib.Core.Path.{fun_ext, ap₂}
use liteflow.Messages.{
  Ping, DataPost, DataAck, DataFec, Body, ping_req, ping_rsp, data_post, data_ack, connect_req,
  connect_rsp, close_req, close_rsp, connect_rst, connect_data, data_fec, put_le, get_le, no_bytes,
  post_bytes, read_post, ping_bytes, read_ping, fec_bytes, read_fec, acks_bytes, ack_bytes,
  read_acks, read_ack, put_bytes, header_size, ping_size, post_size, ack_header_size,
  fec_header_size,
}
use liteflow.Messages.Codec.{
  cmd_of, body_bytes, encode, size_of, parse, parse_body, if_long, parsed,
}

-- Fields within their widths, and no bytes but those of the arrays.
pub record PostOk (p : DataPost) : Type 0 where
  pub seq : p.seq < 2 ^ 32
  pub len : p.len < 2 ^ 16
  pub fec_seq : p.fec_seq < 2 ^ 32
  pub fec_index : p.fec_index < 256
  pub padded : (i : ℕ) → p.len ≤ i → p.payload i ≡ 0

pub record PingOk (p : Ping) : Type 0 where
  pub node_id : p.node_id < 2 ^ 16
  pub ping_id : p.ping_id < 2 ^ 32
  pub timestamp : p.timestamp < 2 ^ 64
  pub padded : (i : ℕ) → 32 ≤ i → p.token i ≡ 0

pub record FecOk (f : DataFec) : Type 0 where
  pub fec_seq : f.fec_seq < 2 ^ 32
  pub fec_members : f.fec_members < 256
  pub fec_len : f.fec_len < 2 ^ 16
  pub padded : (i : ℕ) → f.fec_len ≤ i → f.fec_data i ≡ 0

pub record AckOk (a : DataAck) : Type 0 where
  pub win_start : a.win_start < 2 ^ 32
  pub win_size : a.win_size < 2 ^ 32
  pub ack_size : length a.acks < 256
  pub acks : All (λ (s, e). (s < 2 ^ 32) × (e < 2 ^ 32)) a.acks

abbrev pub BodyOk : Body → Type 0
BodyOk (ping_req p) = PingOk p
BodyOk (ping_rsp p) = PingOk p
BodyOk (data_post p) = PostOk p
BodyOk (data_ack a) = AckOk a
BodyOk (connect_req t) = t < 2 ^ 16
BodyOk (connect_rsp s) = s < 2 ^ 32
BodyOk (close_req q) = q < 2 ^ 32
BodyOk close_rsp = Unit
BodyOk connect_rst = Unit
BodyOk (connect_data t p) = (t < 2 ^ 16) × PostOk p
BodyOk (data_fec f) = FecOk f

get_byte : (n : ℕ) (rest : ℕ → ℕ) → n < 256 → get_le 1 (put_le 1 n rest) ≡ n
get_byte n rest h = omega arith

get_word16 : (n : ℕ) (rest : ℕ → ℕ) → n < 2 ^ 16 → get_le 2 (put_le 2 n rest) ≡ n
get_word16 n rest h = omega arith

get_word32 : (n : ℕ) (rest : ℕ → ℕ) → n < 2 ^ 32 → get_le 4 (put_le 4 n rest) ≡ n
get_word32 n rest h = omega arith

get_word64 : (n : ℕ) (rest : ℕ → ℕ) → n < 2 ^ 64 → get_le 8 (put_le 8 n rest) ≡ n
get_word64 n rest h = omega arith

padded_bytes :
    (w : ℕ) (bytes : ℕ → ℕ) → ((i : ℕ) → w ≤ i → bytes i ≡ 0) → put_bytes w bytes no_bytes ≡ bytes
padded_bytes w bytes h = fun_ext (λ i. ground (arith, h i))

pub read_post-post_bytes : (p : DataPost) → PostOk p → read_post (post_bytes p) ≡ p
read_post-post_bytes p ok = λ i. record {
  seq = get_word32 p.seq no_bytes ok.seq i;
  len = get_word16 p.len no_bytes ok.len i;
  fec_seq = get_word32 p.fec_seq no_bytes ok.fec_seq i;
  fec_index = get_byte p.fec_index no_bytes ok.fec_index i;
  payload = padded_bytes p.len p.payload ok.padded i;
}

read_ping-ping_bytes : (p : Ping) → PingOk p → read_ping (ping_bytes p) ≡ p
read_ping-ping_bytes p ok = λ i. record {
  node_id = get_word16 p.node_id no_bytes ok.node_id i;
  ping_id = get_word32 p.ping_id no_bytes ok.ping_id i;
  timestamp = get_word64 p.timestamp no_bytes ok.timestamp i;
  token = padded_bytes 32 p.token ok.padded i;
}

read_fec-fec_bytes : (f : DataFec) → FecOk f → read_fec (fec_bytes f) ≡ f
read_fec-fec_bytes f ok = λ i. record {
  fec_seq = get_word32 f.fec_seq no_bytes ok.fec_seq i;
  fec_members = get_byte f.fec_members no_bytes ok.fec_members i;
  fec_len = get_word16 f.fec_len no_bytes ok.fec_len i;
  fec_data = padded_bytes f.fec_len f.fec_data ok.padded i;
}

read_acks-acks_bytes :
    (xs : List (ℕ × ℕ))
    → All (λ (s, e). (s < 2 ^ 32) × (e < 2 ^ 32)) xs
    → read_acks (length xs) (acks_bytes xs) ≡ xs
read_acks-acks_bytes [] h = refl
read_acks-acks_bytes ((s, e) ∷ xs) h = λ i.
    (get_word32 s no_bytes h.0.0 i, get_word32 e no_bytes h.0.1 i) ∷ read_acks-acks_bytes xs h.1 i

read_ack-ack_bytes : (a : DataAck) → AckOk a → read_ack (ack_bytes a) ≡ a
read_ack-ack_bytes a ok = λ i. record {
  win_start = get_word32 a.win_start no_bytes ok.win_start i;
  win_size = get_word32 a.win_size no_bytes ok.win_size i;
  acks =
      (ap (λ n. read_acks n (acks_bytes a.acks)) (get_byte (length a.acks) no_bytes ok.ack_size)
          ∙ read_acks-acks_bytes a.acks ok.acks)
        i;
}

-- A body that is long enough goes to its handler.
if_long_enough :
    (recv_len size flow flow' : ℕ) (body body' : Body)
    → header_size + size ≤ recv_len
    → flow ≡ flow'
    → body ≡ body'
    → if_long recv_len size flow body ≡ parsed flow' body'
if_long_enough recv_len size flow flow' body body' h e b = ground (arith, ap₂ parsed e b)

-- The checks that all commands share.
header_read :
    (recv_len flow : ℕ) (body : Body)
    → header_size ≤ recv_len
    → flow < 2 ^ 32
    → parse recv_len (encode flow body) ≡ parse_body recv_len (cmd_of body) flow (body_bytes body)
unfolding parse encode
header_read recv_len flow body h f = ground (
  arith,
  ap₂ (λ c g. parse_body recv_len c g (body_bytes body))
      (get_byte (cmd_of body) no_bytes (cmd_byte body)) (get_word32 flow no_bytes f),
)
  where
    cmd_byte : (body : Body) → cmd_of body < 256
    cmd_byte (ping_req p) = omega arith
    cmd_byte (ping_rsp p) = omega arith
    cmd_byte (data_post p) = omega arith
    cmd_byte (data_ack a) = omega arith
    cmd_byte (connect_req t) = omega arith
    cmd_byte (connect_rsp s) = omega arith
    cmd_byte (close_req q) = omega arith
    cmd_byte close_rsp = omega arith
    cmd_byte connect_rst = omega arith
    cmd_byte (connect_data t p) = omega arith
    cmd_byte (data_fec f) = omega arith

-- A message whose fields fit their widths, sent with the length the senders compute, passes the checks
-- of litedt_io_event, and the handler gets the flow and the fields that were sent.
pub parse-encode :
    (flow : ℕ) (body : Body)
    → flow < 2 ^ 32
    → BodyOk body
    → parse (size_of body) (encode flow body) ≡ parsed flow body
unfolding parse_body
parse-encode flow (ping_req p) h ok =
    header_read (size_of (ping_req p)) flow (ping_req p) (omega arith) h
    ∙ if_long_enough (size_of (ping_req p)) ping_size flow flow _ (ping_req p) (omega (arith)) refl
        (ap ping_req (read_ping-ping_bytes p ok))
parse-encode flow (ping_rsp p) h ok =
    header_read (size_of (ping_rsp p)) flow (ping_rsp p) (omega arith) h
    ∙ if_long_enough (size_of (ping_rsp p)) ping_size flow flow _ (ping_rsp p) (omega (arith)) refl
        (ap ping_rsp (read_ping-ping_bytes p ok))
parse-encode flow (data_post p) h ok =
    header_read (size_of (data_post p)) flow (data_post p) (omega arith) h
    ∙ if_long_enough (size_of (data_post p)) (post_size + get_le 2 (put_le 2 p.len no_bytes)) flow
        flow _ (data_post p) (omega (arith, get_word16 p.len no_bytes ok.len)) refl
        (ap data_post (read_post-post_bytes p ok))
parse-encode flow (data_ack a) h ok =
    header_read (size_of (data_ack a)) flow (data_ack a) (omega arith) h
    ∙ if_long_enough (size_of (data_ack a))
        (ack_header_size + length (read_ack (ack_bytes a)).acks * 8) flow flow _ (data_ack a)
        (omega (arith, ap (λ b. length b.acks) (read_ack-ack_bytes a ok))) refl
        (ap data_ack (read_ack-ack_bytes a ok))
parse-encode flow (connect_req t) h ok =
    header_read (size_of (connect_req t)) flow (connect_req t) (omega arith) h
    ∙ if_long_enough (size_of (connect_req t)) 2 flow flow _ (connect_req t) (omega (arith)) refl
        (ap connect_req (get_word16 t no_bytes ok))
parse-encode flow (connect_rsp s) h ok =
    header_read (size_of (connect_rsp s)) flow (connect_rsp s) (omega arith) h
    ∙ if_long_enough (size_of (connect_rsp s)) 4 flow flow _ (connect_rsp s) (omega (arith)) refl
        (ap connect_rsp (get_word32 s no_bytes ok))
parse-encode flow (close_req q) h ok =
    header_read (size_of (close_req q)) flow (close_req q) (omega arith) h
    ∙ if_long_enough (size_of (close_req q)) 4 flow flow _ (close_req q) (omega (arith)) refl
        (ap close_req (get_word32 q no_bytes ok))
parse-encode flow close_rsp h ok = header_read (size_of close_rsp) flow close_rsp (omega arith) h
parse-encode flow connect_rst h ok =
    header_read (size_of connect_rst) flow connect_rst (omega arith) h
parse-encode flow (connect_data t p) h ok =
    header_read (size_of (connect_data t p)) flow (connect_data t p) (omega arith) h
    ∙ if_long_enough (size_of (connect_data t p))
        (2 + post_size + get_le 2 (put_le 2 p.len no_bytes)) flow flow _ (connect_data t p)
        (omega (arith, get_word16 p.len no_bytes ok.1.len)) refl
        (ap₂ connect_data (get_word16 t no_bytes ok.0) (read_post-post_bytes p ok.1))
parse-encode flow (data_fec f) h ok =
    header_read (size_of (data_fec f)) flow (data_fec f) (omega arith) h
    ∙ if_long_enough (size_of (data_fec f))
        (fec_header_size + get_le 2 (put_le 2 f.fec_len no_bytes)) flow flow _ (data_fec f)
        (omega (arith, get_word16 f.fec_len no_bytes ok.fec_len)) refl
        (ap data_fec (read_fec-fec_bytes f ok))
