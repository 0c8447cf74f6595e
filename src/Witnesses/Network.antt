-- ===== src/Witnesses/Network.antt =====
-- Runs of the theorems on the socket and the client.
use navtechradar.Base.{ℕ, ◌+◌, ◌≡◌, ◌≢◌, refl, arith, true, false, List, [], ◌∷◌, ◌++◌, some}
use navtechradar.Base.{length, drop}
use navtechradar.Base.Bytes.{byte_swap, read_bytes, write_bytes}
use navtechradar.NetConversion.{to_uint32_network, to_uint32_host}
use navtechradar.ThreadedQueue.{Queue}
use navtechradar.ThreadedQueue
use navtechradar.Socket.{Arrival, Line, got, consume, peek, returned, receive, left}
use navtechradar.Socket
use navtechradar.Socket.Receive.{gives, receive-consume}
use navtechradar.Colossus.Message.Wire.{wire}
use navtechradar.TcpClient.{
  Client, Answers, ConnectionState, connected, disconnected, is_running, get_connection_state,
  connect, connection_check_handler, connect_thread_round, start, stop,
}
use navtechradar.TcpClient
use navtechradar.TcpClient.Reader
use navtechradar.Colossus.Message.{signature_ne}
use navtechradar.Colossus.Message
use navtechradar.TcpClient.Reader.{
  done, short, no_address, handle_data, handle_message, handle_payload, hand_over, resynchronise,
  read_message, read_round, read_thread,
}
use navtechradar.TcpClient.Restart.{restart_lem}
use navtechradar.TcpClient.Invariant.{Served, unchanged, read_thread-Served}
use navtechradar.TcpClient.Fuel.{read_thread-enough}
use navtechradar.TcpClient.Frames.{at, plenty}
use navtechradar.TcpClient.Stream.{hung_ups, read_thread-hung_up, round-split_peek}

abbrev line_of : List ℕ → Line
line_of stream = record { stream = stream; running = true }

in_two_pieces :
    receive consume 3 [] (line_of (10 ∷ 20 ∷ 30 ∷ 40 ∷ [])) (gives 2 ∷ gives 5 ∷ [])
    ≡ returned 3 (10 ∷ 20 ∷ 30 ∷ []) (line_of (40 ∷ [])) []
unfolding receive Socket.receive_loop
in_two_pieces = refl

receive-consume_example :
    ◌≡◌ {A = ℕ} 3 3
    × (taken : List ℕ) × (10 ∷ 20 ∷ 30 ∷ 40 ∷ [] ≡ taken ++ (40 ∷ []))
    × (10 ∷ 20 ∷ 30 ∷ [] ≡ [] ++ taken)
    × (length taken ≡ 3)
receive-consume_example =
    receive-consume 3 [] (line_of (10 ∷ 20 ∷ 30 ∷ 40 ∷ [])) (gives 2 ∷ gives 5 ∷ []) 3
      (10 ∷ 20 ∷ 30 ∷ []) (line_of (40 ∷ [])) [] in_two_pieces (omega arith)

abbrev pub empty_queue : Queue (List ℕ)
empty_queue = record {
  thread = record { joinable = true; stop_requested = false };
  stopping = false;
  items = [];
  has_callback = true;
  handled = [];
}

-- A client that is connected to descriptor 5 and reads.
abbrev pub reader : Client
reader = record {
  queue = empty_queue;
  socket = record { sock = some 5; destination = no_address; port = 6317 };
  has_connect_thread = true;
  has_read_thread = true;
  timer_enabled = true;
  connection_state = connected;
  reading = true;
  line = line_of [];
  arrivals = [];
  sent = [];
}

restart_lem_example :
    (d : Client) × (stop true reader ≡ some d)
    × (get_connection_state (start d) ≡ connected)
    × ((os : Answers) → connect_thread_round os (start d) ≡ start d)
    × (connection_check_handler (start d) ≡ false)
    × ((start d).has_read_thread ≡ false)
    × ((start d).reading ≡ false)
restart_lem_example = restart_lem true reader refl refl

abbrev stopped_meanwhile : Arrival
stopped_meanwhile = record { outcome = Socket.failed; still_open = false; still_running = false }

-- Noise, a message of one byte, and then a stop of the client.
abbrev one_message : Client
one_message =
    at reader (99 ∷ wire 30 (7 ∷ []))
      (plenty ∷ plenty ∷ plenty ∷ plenty ∷ plenty ∷ stopped_meanwhile ∷ []) empty_queue

abbrev after_one_message : Client
after_one_message = record reader {
  queue = ThreadedQueue.enqueue (wire 30 (7 ∷ [])) empty_queue;
  reading = false;
  line = record { stream = []; running = false };
}

one_message-read : read_thread 4 one_message ≡ done after_one_message
unfolding read_thread read_round read_message handle_data handle_message handle_payload hand_over
    resynchronise Reader.receive receive Socket.receive_loop signature_ne Message.signature_eq
    Message.equal Message.is_valid Message.is_version_valid Message.is_signature_valid
    Message.payload_size Message.append Message.update_payload_size Message.add_signature
    Message.add_version Message.initialize Message.relinquish Message.replace Message.new read_bytes
    write_bytes byte_swap ThreadedQueue.enqueue TcpClient.set_connection_state to_uint32_network
    to_uint32_host
one_message-read = refl

read_thread-Served_example : Served empty_queue after_one_message.queue
read_thread-Served_example =
    read_thread-Served empty_queue 4 one_message after_one_message (omega arith) unchanged
      one_message-read

read_thread-enough_example : read_thread 7 one_message ≢ short
read_thread-enough_example = read_thread-enough 7 one_message (omega arith)

abbrev in_front : Client
in_front = at reader (wire 30 (7 ∷ [])) (plenty ∷ plenty ∷ []) empty_queue

abbrev behind : Client
behind = at reader [] [] (ThreadedQueue.enqueue (wire 30 (7 ∷ [])) empty_queue)

in_front-handled : handle_data in_front ≡ done (true, behind)
unfolding handle_data handle_message handle_payload hand_over Reader.receive receive
    Socket.receive_loop Message.signature_eq Message.equal Message.is_valid Message.is_version_valid
    Message.is_signature_valid Message.payload_size Message.append Message.update_payload_size
    Message.add_signature Message.add_version Message.initialize Message.relinquish Message.replace
    Message.new read_bytes write_bytes byte_swap to_uint32_network to_uint32_host
in_front-handled = refl

read_thread-hung_up_example :
    read_thread (4 + 5) (at reader (9 ∷ []) (hung_ups 4 []) empty_queue)
    ≡ read_thread 5 (at reader (9 ∷ []) [] empty_queue)
read_thread-hung_up_example = read_thread-hung_up reader 4 (9 ∷ []) [] empty_queue 5

round-split_peek_example :
    read_round
      (at reader (wire 30 (7 ∷ []) ++ (9 ∷ [])) (gives 1 ∷ gives 16 ∷ gives 1 ∷ []) empty_queue)
    ≡ done (true, at reader (drop 1 (wire 30 (7 ∷ []) ++ (9 ∷ []))) [] empty_queue)
round-split_peek_example = round-split_peek reader 30 (7 ∷ []) (9 ∷ []) [] empty_queue
