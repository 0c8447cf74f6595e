-- ===== src/Socket.antt =====
-- cpp_17/network/tcp_socket.h and .cpp: the class Tcp_socket. What the system calls answer is an
-- argument. The peer's bytes that the process has not taken yet are `stream`; the answers of the
-- successive calls of recv are a list, and a run whose list is used up waits in recv.
use navtechradar.Base.{
  ℕ, zero, suc, ◌+◌, ◌-◌, ◌<◌, ◌≡◌, min, Bool, true, false, not, ◌||◌, List, [], ◌∷◌, ◌++◌, Option,
  none, some,
}
use navtechradar.Base.{length, take, drop, ltb, ◌==◌, if◌then◌else◌}
use navtechradar.IpAddress.{IpAddress}
pub mod Receive
pub mod Remaining
pub mod Progress

-- `sock` is the descriptor, none for -1.
pub record Socket : Type 0 where
  pub sock : Option ℕ
  pub destination : IpAddress
  pub port : ℕ

pub new : IpAddress → ℕ → Socket
new destination port = record { sock = none; destination = destination; port = port }

abbrev is_some : Option ℕ → Bool
is_some none = false
is_some (some fd) = true

pub is_valid : Socket → Bool
is_valid s = is_some s.sock

-- The answers of socket() and of the two checked calls of setsockopt(). The timeouts of the third
-- are the system's, and its answer is not read.
unfoldable pub create : Option ℕ → Bool → Bool → Socket → Socket × Bool
unfolding is_valid
create made reuse_set linger_set s =
    let s' = record s { sock = made } in
    if not (is_valid s')
    then (s', false)
    else if not reuse_set
    then (s', false)
    else if not linger_set
    then (s', false)
    else (s', true)

unfoldable pub connect : Bool → Socket → Bool
unfolding is_valid
connect connected s = if not (is_valid s) then false else connected

-- `none` is an answer other than -1, and `some` carries errno.
unfoldable pub send : Option ℕ → ℕ
send none = 0
send (some error_number) = error_number

-- The socket after close(), and whether it returned true.
unfoldable pub close : Bool → Socket → Socket × Bool
unfolding is_valid
close closed s =
    if not (is_valid s)
    then (s, false)
    else if not closed
    then (s, false)
    else (record s { sock = none }, true)

-- An answer of recv: some bytes, as far as the stream, the room and this bound allow; 0, because the
-- peer has closed; or -1, which a timeout gives too.
pub data Outcome : Type 0 where
  got : ℕ → Outcome
  closed : Outcome
  failed : Outcome

-- One call of recv with what other threads have done to the client by its end: whether the socket
-- is still open, and whether the client still runs.
pub record Arrival : Type 0 where
  pub outcome : Outcome
  pub still_open : Bool
  pub still_running : Bool

pub record Line : Type 0 where
  pub stream : List ℕ
  pub running : Bool

pub data ReceiveOption : Type 0 where
  consume peek : ReceiveOption

-- How many bytes recv gives; 0 stands for every status that is not positive.
abbrev pub status : Outcome → ℕ → List ℕ → ℕ
status (got bound) room stream = min bound (min room (length stream))
status closed room stream = 0
status failed room stream = 0

abbrev pub left : ReceiveOption → ℕ → List ℕ → List ℕ
left consume count stream = drop count stream
left peek count stream = stream

-- The line after a call of recv that gave `count` bytes.
abbrev pub after : ReceiveOption → ℕ → Arrival → Line → Line
after flag count a line = record { stream = left flag count line.stream; running = a.still_running }

-- What receive() returns, with the vector that it filled; `blocked` if it still waits in recv.
pub data Received : Type 0 where
  returned : ℕ → List ℕ → Line → List Arrival → Received
  blocked : Received

-- The while loop: `bytes_read` of `bytes_to_read` bytes are in `bytes`.
unfoldable pub receive_loop : ReceiveOption → ℕ → ℕ → List ℕ → Line → List Arrival → Received
receive_loop flag bytes_to_read bytes_read bytes line [] =
    if ltb bytes_read bytes_to_read then blocked else returned bytes_read bytes line []
receive_loop flag bytes_to_read bytes_read bytes line (a ∷ later) =
    let count = status a.outcome (bytes_to_read - bytes_read) line.stream in
    let line' = after flag count a line in
    let bytes' = bytes ++ take count line.stream in
    let rest = receive_loop flag bytes_to_read (bytes_read + count) bytes' line' later in
    if ltb bytes_read bytes_to_read
    then (if count == 0
        then returned 0 bytes line' later
        else if a.still_open
        then rest
        else returned 0 bytes' line' later)
    else returned bytes_read bytes line (a ∷ later)

-- Every caller asks for at least one byte, so that `status` is set when the loop ends.
unfoldable pub receive : ReceiveOption → ℕ → List ℕ → Line → List Arrival → Received
receive flag bytes_to_read bytes line arrivals =
    receive_loop flag bytes_to_read 0 bytes line arrivals
