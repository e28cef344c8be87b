-- ===== src/Litedt.antt =====
-- The protocol engine of one peer, src/litedt.c with src/litedt.h and src/litedt_internal.h: its state
-- and the sequencing of its operations. Flows are the keys of the tables. Messages and calls of the
-- user's functions are written to a log, so that a function that the user has set does not call back
-- into the engine here. The clock is read as one time for each call from outside.
pub mod Send
pub mod Table
pub mod Sack
pub mod Post
pub mod User
pub mod Control
pub mod Receive
pub mod Ack
pub mod Timer
pub mod Transmit
pub mod Event
pub mod Follow
pub mod Life
pub mod LifeTable
pub mod Keep
pub mod LifeUser
pub mod LifeQueue
pub mod LifeTime
pub mod LifeData
pub mod LifeControl
pub mod Guard
pub mod Steps
mod Examples
use liteflow.Base.{
  ℕ, ◌+◌, ◌-◌, ◌^◌, ◌==◌, Bool, true, false, not, ◌&&◌, ltb, if◌then◌else◌, Option, none, some,
  List, [], ◌∷◌, ◌++◌, min_of,
}
use liteflow.Base.Word.{u32_mod}
use liteflow.Host.{Host}
use liteflow.Ctrl.{Ctrl}
use liteflow.Rbuffer.{Rbuf}
use liteflow.Retrans.{Retrans, TimerQueue}
use liteflow.Fec.{FecMod}
use liteflow.Messages.{Body}

-- enum CONNECT_STATUS
pub data ConnState : Type 0 where
  request established fin_wait close_wait closed : ConnState

-- The number of a state, for the comparisons.
abbrev pub rank : ConnState → ℕ
rank request = 0
rank established = 1
rank fin_wait = 2
rank close_wait = 3
rank closed = 4

-- enum LITEDT_ERRCODE, as an int32_t in two's complement; 0 is success.
abbrev pub litedt_record_not_found : ℕ
litedt_record_not_found = u32_mod - 100

abbrev pub litedt_record_exists : ℕ
litedt_record_exists = u32_mod - 101

abbrev pub litedt_parameter_error : ℕ
litedt_parameter_error = u32_mod - 104

abbrev pub litedt_not_enough_space : ℕ
litedt_not_enough_space = u32_mod - 105

abbrev pub litedt_seq_out_of_range : ℕ
litedt_seq_out_of_range = u32_mod - 106

abbrev pub litedt_send_flow_control : ℕ
litedt_send_flow_control = u32_mod - 200

abbrev pub litedt_client_offline : ℕ
litedt_client_offline = u32_mod - 300

-- The connection queue is a timer list: event_time is the time of its node. A sack range is its start
-- with its end and the number of times it was sent.
pub record Conn : Type 0 where
  pub state : ConnState
  pub tunnel_id : ℕ
  pub swin_start : ℕ
  pub swin_size : ℕ
  pub rwin_start : ℕ
  pub rwin_size : ℕ
  pub write_seq : ℕ
  pub send_seq : ℕ
  pub reack_times : ℕ
  pub probes_sent : ℕ
  pub notify_recvnew : Bool
  pub notify_recv : Bool
  pub notify_send : Bool
  pub fec_enabled : Bool
  pub sack_map : List (ℕ × (ℕ × ℕ))
  pub last_probe_time : ℕ
  pub last_sync_time : ℕ
  pub next_sync_time : ℕ
  pub event_time : ℕ
  pub send_buf : Rbuf
  pub recv_buf : Rbuf
  pub retrans : Retrans
  pub fec : FecMod

-- The counters of litedt_stat_t that the engine itself counts.
pub record Stat : Type 0 where
  pub send_bytes_stat : ℕ
  pub recv_bytes_stat : ℕ
  pub send_bytes_data : ℕ
  pub recv_bytes_data : ℕ
  pub send_bytes_ack : ℕ
  pub recv_bytes_ack : ℕ
  pub data_packet_post : ℕ
  pub fec_packet_post : ℕ
  pub dup_packet_recv : ℕ
  pub fec_recover : ℕ
  pub send_error : ℕ
  pub time_event_app_limited : ℕ
  pub time_event_rate_limited : ℕ
  pub time_event_cwnd_limited : ℕ
  pub io_event : ℕ
  pub io_event_wrong_packet : ℕ
  pub io_event_reject : ℕ

-- What the engine calls: sys_send_cb with a message and its flow, and the user's functions.
pub data Output : Type 0 where
  sent : ℕ → Body → Output
  on_online : Bool → Output
  on_connect : ℕ → ℕ → Output
  on_close : ℕ → Output
  on_receive on_send : ℕ → ℕ → Output
  on_event_time : ℕ → Output

-- The ready packets of all connections, in a timer list: send time, flow and sequence number.
abbrev pub ReadyQueue : Type 0
ReadyQueue = List (ℕ × (ℕ × ℕ))

pub record Engine : Type 0 where
  pub host : Host
  pub stat : Stat
  pub ctrl : Ctrl
  pub node_id : ℕ
  pub peer_node_id : ℕ
  pub mss : ℕ
  pub remote_online : Bool
  pub is_closed : Bool
  pub ping_id : ℕ
  pub ping_rtt : ℕ
  pub last_event_time : ℕ
  pub next_event_time : ℕ
  pub prior_ping_time : ℕ
  pub next_ping_time : ℕ
  pub offline_time : ℕ
  pub conns : List (ℕ × Conn)
  pub retrans_queue : ReadyQueue
  pub timewait : List (ℕ × ℕ)
  pub active : List ℕ
  pub log : List Output

-- What surrounds the engine during a call: the two clocks, whether malloc succeeds and what it leaves in
-- memory, the results of sys_send_cb (none is negative) and connect_cb, rto_ratio as a product, and the
-- SHA-256 digest that generate_token computes from the password, a node and a payload with its length.
pub record Env : Type 0 where
  pub now : ℕ
  pub real_time : ℕ
  pub alloc : Bool
  pub timewait_alloc : Bool
  pub fec_alloc : Bool
  pub block_create : ℕ → Bool
  pub memory : ℕ → ℕ
  pub sys_send : ℕ → Body → Option ℕ
  pub connect : ℕ → ℕ → ℕ
  pub rto : ℕ → ℕ
  pub token : ℕ → (ℕ → ℕ) → ℕ → ℕ → ℕ

-- A computation on the engine. none is a fault of the program: a failed assertion, or a read of
-- what is not there.
abbrev pub Run : Type 0 → Type 0
Run A = Engine → Option (Engine × A)

infixl 5 ◌>>=◌
unfoldable pub ◌>>=◌ : {A B : Type 0} → Run A → (A → Run B) → Run B
(m >>= f) e = elim (m e) [ none ↦ none | some (e', a) ↦ f a e' ]

infixl 5 ◌>>◌
unfoldable pub ◌>>◌ : {A B : Type 0} → Run A → Run B → Run B
(m >> n) e = elim (m e) [ none ↦ none | some (e', a) ↦ n e' ]

abbrev pub return : {A : Type 0} → A → Run A
return a e = some (e, a)

-- A part of the program that may fault, and the state.
abbrev pub lift : {A : Type 0} → Option A → Run A
lift none e = none
lift (some a) e = some (e, a)

abbrev pub gets : {A : Type 0} → (Engine → A) → Run A
gets f e = some (e, f e)

abbrev pub modify : (Engine → Engine) → Run Unit
modify f e = some (f e, tt)

abbrev pub when : Bool → Run Unit → Run Unit
when b m e = if b then m e else some (e, tt)

-- A write to the log, and to the statistics and the host.
abbrev pub emit : Output → Run Unit
emit o = modify (λ e. record e { log = e.log ++ (o ∷ []) })

abbrev pub modify_stat : (Stat → Stat) → Run Unit
modify_stat f = modify (λ e. record e { stat = f e.stat })

abbrev pub modify_host : (Host → Host) → Run Unit
modify_host f = modify (λ e. record e { host = f e.host })

-- The node of a flow in a table, the write through a pointer to it, and its removal.
abbrev pub lookup : {A : Type 0} → ℕ → List (ℕ × A) → Option A
lookup k [] = none
lookup k ((j, a) ∷ xs) = let rest = lookup k xs in if j == k then some a else rest

abbrev pub put : {A : Type 0} → ℕ → (A → A) → List (ℕ × A) → List (ℕ × A)
put k f [] = []
put k f ((j, a) ∷ xs) =
    let rest = put k f xs in if j == k then ((j, f a) ∷ rest) else ((j, a) ∷ rest)

abbrev pub remove : {A : Type 0} → ℕ → List (ℕ × A) → List (ℕ × A)
remove k [] = []
remove k ((j, a) ∷ xs) = let rest = remove k xs in if j == k then rest else ((j, a) ∷ rest)

abbrev pub find_connection : ℕ → Run (Option Conn)
find_connection flow = gets (λ e. lookup flow e.conns)

abbrev pub mod_conn : ℕ → (Conn → Conn) → Run Unit
mod_conn flow f = modify (λ e. record e { conns = put flow f e.conns })

-- timerlist_push and timerlist_del of the ready packets.
abbrev pub del_ready : ReadyQueue → ℕ × ℕ → ReadyQueue
del_ready [] key = []
del_ready ((t, k) ∷ xs) key =
    let rest = del_ready xs key in
    if (k.0 == key.0) && (k.1 == key.1) then rest else ((t, k) ∷ rest)

abbrev pub ready_queue : Bool → TimerQueue ReadyQueue
ready_queue alloc = record {
  push = λ q t key. if alloc then some ((t, key) ∷ q) else none;
  del = del_ready;
}

-- litedt_online_status
abbrev pub is_online : Engine → Bool
is_online e = e.remote_online && not e.is_closed

-- litedt_mod_evtime, with the connection or NULL; timerlist_moveup only makes the time earlier.
unfoldable pub litedt_mod_evtime : Env → Option ℕ → ℕ → Run Unit
litedt_mod_evtime env conn event_time = do
  elim conn [
    | none ↦ return tt
    | some flow ↦ mod_conn flow (λ c.
        if ltb event_time c.next_sync_time
        then record c { next_sync_time = event_time; event_time = min_of event_time c.event_time }
        else c)
  ]
  next ← gets (λ e. e.next_event_time)
  when (ltb event_time next) (do
    modify (λ e. record e { next_event_time = event_time })
    emit (on_event_time (event_time - env.now)))
