-- ===== src/Net/TcpClient.antt =====
-- include/afx/net/tcp_client.hpp, with what `close` and a connect result of include/afx/net/connection.hpp do
-- to a connection. A connection is its number, in the order in which they are made; the loop's timers and
-- deferred calls are lists, and which timer comes up is an argument. What the kernel and the pool answer when
-- the n-th socket is made, and the jitter of the n-th delay, are parameters. The user's handlers are entries
-- of a log. Not modelled: the destructor, the drain hooks, the rows for the admin endpoint.
pub mod Attempts
pub mod Events
pub mod Backoffs
pub mod Order
pub mod Closing
pub mod Winner
pub mod Alive
pub mod Lasting
pub mod Running
mod Tests
use affini_x.Base.{
  ℕ, zero, suc, ◌+◌, ◌*◌, ◌==◌, min, Bool, true, false, not, ◌&&◌, ◌||◌, if◌then◌else◌, Option,
  none, some, List, [], ◌∷◌, ◌++◌, ltb, length, drop, update,
}
use affini_x.Net.Connection.{CloseReason, local_close, connect_failed}

pub data ClientState : Type 0 where
  disconnected : ClientState
  connecting : ClientState
  connected : ClientState
  reconnect_wait : ClientState

-- Durations in nanoseconds.
pub record Backoff : Type 0 where
  pub initial : ℕ
  pub max : ℕ
  pub current : ℕ

pub next : Backoff → ℕ × Backoff
next b =
    let d = if b.current == 0 then b.initial else b.current in
    (d, record b { current = min (d * 2) b.max })

abbrev pub reset : Backoff → Backoff
reset b = record b { current = 0 }

pub record SockAddr : Type 0 where
  pub is_v6 : Bool
  pub number : ℕ

-- What making a socket and a connection for it came to.
pub data Opened : Type 0 where
  no_socket : Opened
  no_memory : Opened
  opened : Opened

pub data Phase : Type 0 where
  waits : Phase
  established : Phase
  gone : Phase

-- The timers of the group of an attempt set carry its number.
pub data Timer : Type 0 where
  reconnects : ℕ → Timer
  connect_deadline : ℕ → Timer
  he_deadline : Option ℕ → Timer
  staggers : Option ℕ → Timer

pub data Event : Type 0 where
  changes_state : ClientState → Event
  submits_connect : ℕ → SockAddr → Event
  on_open : ℕ → Event
  on_close : ℕ → CloseReason → Event
  on_error : Event

-- `conns` is the number of connections made, `sockets` of sockets asked for and `delays` of delays drawn.
pub record Client : Type 0 where
  pub happy_eyeballs : Bool
  pub auto_reconnect : Bool
  pub backoff : Backoff
  pub addrs : List SockAddr
  pub he_addrs : List SockAddr
  pub addr_idx : ℕ
  pub he_next : ℕ
  pub he_won : Bool
  pub resolving : Bool
  pub state : ClientState
  pub conn : Option ℕ
  pub pending : List ℕ
  pub closing : List ℕ
  pub he_group : Option ℕ
  pub phases : ℕ → Phase
  pub is_attempt : ℕ → Bool
  pub conns : ℕ
  pub sockets : ℕ
  pub delays : ℕ
  pub groups : ℕ
  pub timers : List Timer
  pub deferred : List (ℕ × CloseReason)
  pub log : List Event

pub create : Bool → Bool → Backoff → Client
create happy auto b = record {
  happy_eyeballs = happy;
  auto_reconnect = auto;
  backoff = b;
  addrs = [];
  he_addrs = [];
  addr_idx = 0;
  he_next = 0;
  he_won = false;
  resolving = false;
  state = disconnected;
  conn = none;
  pending = [];
  closing = [];
  he_group = none;
  phases = λ i. gone;
  is_attempt = λ i. false;
  conns = 0;
  sockets = 0;
  delays = 0;
  groups = 0;
  timers = [];
  deferred = [];
  log = [];
}

abbrev pub emit : Event → Client → Client
emit e c = record c { log = c.log ++ e ∷ [] }

abbrev pub is_state : ClientState → ClientState → Bool
is_state disconnected disconnected = true
is_state connecting connecting = true
is_state connected connected = true
is_state reconnect_wait reconnect_wait = true
is_state s t = false

pub set_state : ClientState → Client → Client
set_state s c = if is_state c.state s then c else emit (changes_state s) (record c { state = s })

abbrev pub arm : Timer → Client → Client
arm t c = record c { timers = c.timers ++ t ∷ [] }

abbrev pub is_conn : ℕ → Option ℕ → Bool
is_conn i none = false
is_conn i (some j) = i == j

-- The close of a loser does not reach the user.
pub he_lost : ℕ → CloseReason → Client → Client
he_lost i r c = if is_conn i c.conn then emit (on_close i r) c else c

pub teardown : ℕ → CloseReason → Client → Client
teardown i r c =
    let c1 : Client = if c.is_attempt i then he_lost i r c else emit (on_close i r) c in
    record c1 { phases = update c1.phases i gone; deferred = c1.deferred ++ (i, r) ∷ [] }

abbrev pub is_gone : Phase → Bool
is_gone gone = true
is_gone p = false

pub close : ℕ → CloseReason → Client → Client
close i r c = if is_gone (c.phases i) then c else teardown i r c

pub on_connected : Client → Client
on_connected c = set_state connected (record c { backoff = reset c.backoff })

-- A new connection, over the attempts' handlers or the user's.
abbrev pub construct : Bool → Client → Client
construct attempt c = record c {
  phases = update c.phases c.conns waits;
  is_attempt = update c.is_attempt c.conns attempt;
  conns = c.conns + 1;
}

-- A live connection is closed before its place is taken.
pub drop_conn : Option ℕ → Client → Client
drop_conn none c = c
drop_conn (some i) c = record (close i local_close c) { conn = none }
