-- ===== src/TcpClient.antt =====
-- cpp_17/network/tcp_radar_client.h and .cpp: the class Tcp_radar_client, with its connection state,
-- its socket and its queue of received messages. Each function is what one thread does between two
-- waits. The handlers of the read thread are in TcpClient/Reader.antt.
use navtechradar.Base.{
  ℕ, ◌≡◌, refl, Bool, true, false, not, List, [], ◌∷◌, ◌++◌, Option, none, some, ◌>>=◌,
}
use navtechradar.Base.{◌==◌, if◌then◌else◌}
use navtechradar.IpAddress.{IpAddress}
use navtechradar.ThreadedQueue.{Queue}
use navtechradar.ThreadedQueue
use navtechradar.Socket.{Socket, Line, Arrival}
use navtechradar.Socket
pub mod Reader
pub mod Delivers
pub mod Keeps
pub mod Invariant
pub mod Fuel
pub mod Stream
pub mod Frames
pub mod Restart
pub mod Shutdown
pub mod Queued
pub mod Decode
pub mod DecodeAll

pub data ConnectionState : Type 0 where
  disconnected connecting connected : ConnectionState

abbrev pub is_connected : ConnectionState → Bool
is_connected connected = true
is_connected disconnected = false
is_connected connecting = false

abbrev pub is_disconnected : ConnectionState → Bool
is_disconnected disconnected = true
is_disconnected connecting = false
is_disconnected connected = false

-- `line.running` is the flag `running`, which every thread reads. `sent` holds what was handed to
-- the system's send without an error.
pub record Client : Type 0 where
  pub queue : Queue (List ℕ)
  pub socket : Socket
  pub has_connect_thread : Bool
  pub has_read_thread : Bool
  pub timer_enabled : Bool
  pub connection_state : ConnectionState
  pub reading : Bool
  pub line : Line
  pub arrivals : List Arrival
  pub sent : List (List ℕ)

abbrev pub is_running : Client → Bool
is_running c = c.line.running

abbrev set_running : Bool → Client → Client
set_running b c = record c { line = record { stream = c.line.stream; running = b } }

pub new : IpAddress → ℕ → Client
new ip_addr port = record {
  queue = ThreadedQueue.new;
  socket = Socket.new ip_addr port;
  has_connect_thread = false;
  has_read_thread = false;
  timer_enabled = false;
  connection_state = disconnected;
  reading = false;
  line = record { stream = []; running = false };
  arrivals = [];
  sent = [];
}

unfoldable pub set_receive_data_callback : Bool → Client → Client
set_receive_data_callback some_fn c = record c {
  queue = ThreadedQueue.set_dequeue_callback some_fn c.queue;
}

unfoldable pub get_connection_state : Client → ConnectionState
get_connection_state c = if not (is_running c) then disconnected else c.connection_state

unfoldable pub set_connection_state : ConnectionState → Client → Client
set_connection_state state c =
    if not (is_running c) then c else record c { connection_state = state }

unfoldable pub start : Client → Client
start c =
    if is_running c
    then c
    else set_running true (record c {
      queue = ThreadedQueue.start c.queue;
      has_connect_thread = true;
      timer_enabled = true;
    })

-- The argument is the answer of the system's close. `none` would be a queue whose stop() does not end.
unfoldable pub stop : Bool → Client → Option Client
stop closed c = if not (is_running c) then some c else (do
  q ← ThreadedQueue.stop false c.queue
  some (
      set_running false (record c {
        queue = q;
        timer_enabled = false;
        socket = (Socket.close closed c.socket).0;
        has_connect_thread = false;
        reading = false;
        has_read_thread = false;
      })))

-- Whether the handler of the timer notifies the connect thread.
unfoldable pub connection_check_handler : Client → Bool
unfolding get_connection_state
connection_check_handler c = is_disconnected (get_connection_state c)

-- The system's answers to close, socket, the two calls of setsockopt, and connect.
pub record Answers : Type 0 where
  pub closed : Bool
  pub made : Option ℕ
  pub reuse_set : Bool
  pub linger_set : Bool
  pub accepted : Bool

abbrev reopened : Answers → Socket → Socket
reopened os s = (Socket.create os.made os.reuse_set os.linger_set (Socket.close os.closed s).0).0

unfoldable pub connect : Answers → Client → Client
unfolding get_connection_state set_connection_state
connect os c =
    if is_connected (get_connection_state c)
    then c
    else (let opened = reopened os c.socket in
        let trying = record (set_connection_state connecting c) { socket = opened } in
        if Socket.connect os.accepted opened
        then record (set_connection_state connected trying) {
          reading = true;
          has_read_thread = true;
        }
        else set_connection_state disconnected trying)

-- One wake-up of connect_thread_handler, which leaves its loop if the client no longer runs.
unfoldable pub connect_thread_round : Answers → Client → Client
unfolding connect
connect_thread_round os c = if not (is_running c) then c else connect os c

-- The argument is the errno of the system's send, if it failed.
unfoldable pub send : Option ℕ → List ℕ → Client → Client
unfolding get_connection_state set_connection_state
send answer bytes c =
    if not (is_connected (get_connection_state c))
    then c
    else if not (Socket.send answer == 0)
    then set_connection_state disconnected c
    else record c { sent = c.sent ++ (bytes ∷ []) }
