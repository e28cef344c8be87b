-- ===== src/Messages.antt =====
-- The messages of src/litedt_messages.h and their packed layout: least significant byte first, as on
-- the machines the program is built for. Bytes are a function from their index; a structure with an
-- array at its end is followed by the bytes of the array.
pub mod Codec
pub mod Whole
mod Examples
use liteflow.Base.{
  ℕ, zero, suc, ◌+◌, ◌-◌, ◌*◌, ◌/◌, ◌%◌, ◌^◌, ◌==◌, Bool, true, false, ltb, if◌then◌else◌, List, [],
  ◌∷◌, length,
}

abbrev pub litedt_version : ℕ
litedt_version = 0xed03

abbrev pub litedt_mss_max : ℕ
litedt_mss_max = 1400

abbrev pub litedt_max_header : ℕ
litedt_max_header = 28

abbrev pub litedt_mtu_max : ℕ
litedt_mtu_max = litedt_mss_max + litedt_max_header

pub record Ping : Type 0 where
  pub node_id : ℕ
  pub ping_id : ℕ
  pub timestamp : ℕ
  pub token : ℕ → ℕ

pub record DataPost : Type 0 where
  pub seq : ℕ
  pub len : ℕ
  pub fec_seq : ℕ
  pub fec_index : ℕ
  pub payload : ℕ → ℕ

pub record DataAck : Type 0 where
  pub win_start : ℕ
  pub win_size : ℕ
  pub acks : List (ℕ × ℕ)

pub record DataFec : Type 0 where
  pub fec_seq : ℕ
  pub fec_members : ℕ
  pub fec_len : ℕ
  pub fec_data : ℕ → ℕ

-- The commands with what follows the header. conn_rsp's status is 0 or an error, as a flag.
pub data Body : Type 0 where
  ping_req ping_rsp : Ping → Body
  data_post : DataPost → Body
  data_ack : DataAck → Body
  connect_req : ℕ → Body
  connect_rsp : ℕ → Body
  close_req : ℕ → Body
  close_rsp connect_rst : Body
  connect_data : ℕ → DataPost → Body
  data_fec : DataFec → Body

-- `w` bytes of a number, before the bytes `rest`.
abbrev pub put_le : ℕ → ℕ → (ℕ → ℕ) → ℕ → ℕ
put_le zero n rest i = rest i
put_le (suc w) n rest zero = n % 256
put_le (suc w) n rest (suc i) = put_le w (n / 256) rest i

-- The number in the first `w` bytes.
abbrev pub get_le : ℕ → (ℕ → ℕ) → ℕ
get_le zero bytes = 0
get_le (suc w) bytes = bytes 0 + 256 * get_le w (λ i. bytes (suc i))

abbrev pub skip : ℕ → (ℕ → ℕ) → ℕ → ℕ
skip zero bytes i = bytes i
skip (suc n) bytes i = skip n bytes (suc i)

abbrev pub no_bytes : ℕ → ℕ
no_bytes i = 0

-- `w` bytes of an array, before the bytes `rest`.
abbrev pub put_bytes : ℕ → (ℕ → ℕ) → (ℕ → ℕ) → ℕ → ℕ
put_bytes w bytes rest i = if ltb i w then bytes i else rest (i - w)

-- sizeof(litedt_header_t), sizeof(data_post_t) and so on.
abbrev pub header_size : ℕ
header_size = 8

abbrev pub ping_size : ℕ
ping_size = 46

abbrev pub post_size : ℕ
post_size = 11

abbrev pub ack_header_size : ℕ
ack_header_size = 9

abbrev pub fec_header_size : ℕ
fec_header_size = 7

abbrev pub post_bytes : DataPost → ℕ → ℕ
post_bytes p = put_le 4 p.seq (
    put_le 2 p.len (put_le 4 p.fec_seq (put_le 1 p.fec_index (put_bytes p.len p.payload no_bytes))))

abbrev pub read_post : (ℕ → ℕ) → DataPost
read_post b = record {
  seq = get_le 4 b;
  len = get_le 2 (skip 4 b);
  fec_seq = get_le 4 (skip 6 b);
  fec_index = get_le 1 (skip 10 b);
  payload = skip 11 b;
}

abbrev pub ping_bytes : Ping → ℕ → ℕ
ping_bytes p =
    put_le 2 p.node_id (put_le 4 p.ping_id (put_le 8 p.timestamp (put_bytes 32 p.token no_bytes)))

abbrev pub read_ping : (ℕ → ℕ) → Ping
read_ping b = record {
  node_id = get_le 2 b;
  ping_id = get_le 4 (skip 2 b);
  timestamp = get_le 8 (skip 6 b);
  token = skip 14 b;
}

abbrev pub fec_bytes : DataFec → ℕ → ℕ
fec_bytes f =
    put_le 4 f.fec_seq
      (put_le 1 f.fec_members (put_le 2 f.fec_len (put_bytes f.fec_len f.fec_data no_bytes)))

abbrev pub read_fec : (ℕ → ℕ) → DataFec
read_fec b = record {
  fec_seq = get_le 4 b;
  fec_members = get_le 1 (skip 4 b);
  fec_len = get_le 2 (skip 5 b);
  fec_data = skip 7 b;
}

abbrev pub acks_bytes : List (ℕ × ℕ) → ℕ → ℕ
acks_bytes [] = no_bytes
acks_bytes ((a, b) ∷ xs) = put_le 4 a (put_le 4 b (acks_bytes xs))

abbrev pub read_acks : ℕ → (ℕ → ℕ) → List (ℕ × ℕ)
read_acks zero b = []
read_acks (suc n) b = (get_le 4 b, get_le 4 (skip 4 b)) ∷ read_acks n (skip 8 b)

abbrev pub ack_bytes : DataAck → ℕ → ℕ
ack_bytes a =
    put_le 4 a.win_start (put_le 4 a.win_size (put_le 1 (length a.acks) (acks_bytes a.acks)))

abbrev pub read_ack : (ℕ → ℕ) → DataAck
read_ack b = record {
  win_start = get_le 4 b;
  win_size = get_le 4 (skip 4 b);
  acks = read_acks (get_le 1 (skip 8 b)) (skip 9 b);
}
