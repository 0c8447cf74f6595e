-- ===== src/TcpClient/Reader.antt =====
-- Tcp_radar_client::handle_data and read_thread_handler in cpp_17/network/tcp_radar_client.cpp.
use navtechradar.Base.{
  ℕ, zero, suc, Bool, true, false, not, ◌||◌, ◌&&◌, List, [], Option, none, some,
}
use navtechradar.Base.{◌==◌, if◌then◌else◌, length}
use navtechradar.IpAddress.{IpAddress}
use navtechradar.ThreadedQueue
use navtechradar.Socket.{Line, Arrival, ReceiveOption, consume, peek, Received, returned, blocked}
use navtechradar.Socket
use navtechradar.Colossus.Message.{Message, signature_ne, header_size, signature}
use navtechradar.Colossus.Message
use navtechradar.TcpClient.{Client, is_running, disconnected, set_connection_state}

-- What a thread comes to: a value, a wait in recv, undefined behaviour, or a model that was given
-- too few rounds.
pub data Run {ℓ} (A : Type ℓ) : Type ℓ where
  done : A → Run A
  waits : Run A
  fault : Run A
  short : Run A

infixl 5 ◌>>=◌
abbrev pub ◌>>=◌ {ℓ κ} : {A : Type ℓ} {B : Type κ} → Run A → (A → Run B) → Run B
done a >>= f = f a
waits >>= f = waits
fault >>= f = fault
short >>= f = short

abbrev pub defined {ℓ} : {A : Type ℓ} → Option A → Run A
defined none = fault
defined (some a) = done a

abbrev pub outcome : Client → Received → Run (ℕ × List ℕ × Client)
outcome c blocked = waits
outcome c (returned n bytes line later) =
    done (n, bytes, record c { line = line; arrivals = later })

-- socket.receive
unfoldable pub receive : ReceiveOption → ℕ → List ℕ → Client → Run (ℕ × List ℕ × Client)
receive flag want bytes c = outcome c (Socket.receive flag want bytes c.line c.arrivals)

-- The test after each receive(): `bytes_read <= 0 || !reading || !running`. The count is unsigned
-- where it is made and below 2^31, so it is never negative.
abbrev pub is_broken : ℕ → Client → Bool
is_broken bytes_read c = bytes_read == 0 || not c.reading || not (is_running c)

abbrev pub enqueue : List ℕ → Client → Client
enqueue bytes c = record c { queue = ThreadedQueue.enqueue bytes c.queue }

-- receive_data_queue.enqueue(msg.relinquish())
unfoldable pub hand_over : Message → Client → Run (Bool × Client)
hand_over msg c = do (bytes, rest) ← defined (Message.relinquish msg); done (true, enqueue bytes c)

-- The payload is read behind a header that is valid and names a payload size other than 0.
unfoldable pub handle_payload : Message → ℕ → Client → Run (Bool × Client)
handle_payload msg payload_size c = do
  (bytes_transferred, payload_data, c') ← receive consume payload_size [] c
  if is_broken bytes_transferred c'
      then done (false, set_connection_state disconnected c')
      else (do whole ← defined (Message.append payload_data msg); hand_over whole c')

unfoldable pub handle_message : Message → Client → Run (Bool × Client)
handle_message msg c = do
  valid ← defined (Message.is_valid msg)
  if not valid then done (true, c) else (do
    payload_size ← defined (Message.payload_size msg)
    if not (payload_size == 0) then handle_payload msg payload_size c else hand_over msg c)

abbrev pub no_address : IpAddress
no_address = record { word = 0 }

unfoldable pub handle_data : Client → Run (Bool × Client)
handle_data c = do
  msg ← defined (Message.new no_address 0)
  (bytes_read, bytes, c') ← receive consume header_size [] c
  if is_broken bytes_read c'
      then done (false, set_connection_state disconnected c')
      else handle_message (Message.replace bytes msg) c'

-- What the loop does after the signature was peeked at: skip a byte, or read a message. The result
-- says whether the loop goes on.
unfoldable pub resynchronise : List ℕ → Client → Run (Bool × Client)
resynchronise seen c = do
  (bytes_read, more, c') ← receive consume 1 seen c
  if is_broken bytes_read c'
      then done (false, set_connection_state disconnected c')
      else done (true, c')

unfoldable pub read_message : Client → Run (Bool × Client)
read_message c = do
  (handled, c') ← handle_data c
  if not handled || not c'.reading || not (is_running c')
      then done (false, set_connection_state disconnected c')
      else done (true, c')

unfoldable pub read_round : Client → Run (Bool × Client)
read_round c = do
  (bytes_read, seen, c') ← receive peek (length signature) [] c
  if bytes_read == 0
      then done (true, c')
      else if is_broken bytes_read c'
      then done (false, set_connection_state disconnected c')
      else (do
        differs ← defined (signature_ne seen)
        if differs then resynchronise seen c' else read_message c')

abbrev pub exited : Client → Run Client
exited c = done (record c { reading = false })

-- while (reading && running)
unfoldable pub read_thread : ℕ → Client → Run Client
read_thread zero c = short
read_thread (suc fuel) c =
    let again =
      read_round c >>= λ r. elim r.0 [ true ↦ read_thread fuel r.1 | false ↦ exited r.1 ] in
    if c.reading && is_running c then again else exited c
