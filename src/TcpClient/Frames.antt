-- ===== src/TcpClient/Frames.antt =====
-- The read thread on a stream of messages that arrive without being cut in the signature, and on a
-- peer that is slow or gone.
use navtechradar.Base.{ℕ, ◌<◌, ◌≤◌, ◌≡◌, refl, ap, arith, true, false, List, [], ◌∷◌, ◌++◌}
use navtechradar.Base.{◌==◌, if◌then◌else◌, length, length-append, take, drop}
use navtechradar.ThreadedQueue.{Queue}
use navtechradar.ThreadedQueue
use navtechradar.Socket.{Arrival, ReceiveOption, consume, peek, left}
use navtechradar.Socket.Receive.{gives, receive-gives}
use navtechradar.Colossus.Message.{Message, header_size, largest_payload, signature, signature_ne}
use navtechradar.Colossus.Message
use navtechradar.Colossus.Message.Wire.{message, header, wire, new-header}
use navtechradar.Colossus.Message.Valid.{is_valid-header}
use navtechradar.TcpClient.{Client}
use navtechradar.TcpClient.Reader.{
  done, outcome, receive, handle_payload, handle_message, handle_data, read_message, read_round,
  no_address,
}
use navtechradar.TcpClient.Delivers.{payload_done, hand_over-header}

-- The client while it reads, with the given stream, answers of recv, and queue.
abbrev pub at : Client → List ℕ → List Arrival → Queue (List ℕ) → Client
at c stream arrivals q = record c {
  queue = q;
  reading = true;
  line = record { stream = stream; running = true };
  arrivals = arrivals;
}

-- A call of recv that gives as much as a payload may have.
abbrev pub plenty : Arrival
plenty = gives largest_payload

pub receive-at :
    (flag : ReceiveOption) (want : ℕ) (c : Client) (stream : List ℕ) (later : List Arrival)
    (q : Queue (List ℕ))
    → 0 < want
    → want ≤ largest_payload
    → want ≤ length stream
    → receive flag want [] (at c stream (plenty ∷ later) q)
      ≡ done (want, take want stream, at c (left flag want stream) later q)
unfolding receive
receive-at flag want c stream later q h0 hb hs = ap (outcome (at c stream (plenty ∷ later) q)) (
    receive-gives flag want largest_payload [] (record { stream = stream; running = true }) later h0
      hb hs)

take-append_self : (p rest : List ℕ) → take (length p) (p ++ rest) ≡ p
take-append_self [] rest = refl
take-append_self (x ∷ p) rest = ap (◌∷◌ x) (take-append_self p rest)

drop-append_self : (p rest : List ℕ) → drop (length p) (p ++ rest) ≡ rest
drop-append_self [] rest = refl
drop-append_self (x ∷ p) rest = drop-append_self p rest

-- The answers that one message takes: for the signature, the header and the payload.
abbrev pub answers : List ℕ → List Arrival → List Arrival
answers p later = plenty ∷ plenty ∷ (if length p == 0 then later else plenty ∷ later)

module _ (c : Client) where
  handle_payload-at :
      (id : ℕ) (p rest : List ℕ) (later : List Arrival) (q : Queue (List ℕ))
      → 0 < length p
      → length p < largest_payload
      → handle_payload
          (message no_address 0 false (header id (length p)))
          (length p)
          (at c (p ++ rest) (plenty ∷ later) q)
        ≡ done (true, at c rest later (ThreadedQueue.enqueue (wire id p) q))
  unfolding handle_payload
  handle_payload-at id p rest later q h0 hp =
      let nonzero : (length p == 0) ≡ false = ground arith in
      let got =
        receive-at consume (length p) c (p ++ rest) later q h0 (omega arith)
          (omega (arith, length-append p rest)) in
      rw (got, nonzero, take-append_self p rest, drop-append_self p rest)
        (payload_done no_address 0 false id (length p) p (at c rest later q) (omega arith))

  handle_message-at :
      (id : ℕ) (p rest : List ℕ) (later : List Arrival) (q : Queue (List ℕ))
      → id < 256
      → length p < largest_payload
      → handle_message
          (message no_address 0 false (header id (length p)))
          (at c (p ++ rest) (if length p == 0 then later else plenty ∷ later) q)
        ≡ done (true, at c rest later (ThreadedQueue.enqueue (wire id p) q))
  unfolding handle_message
  handle_message-at id [] rest later q hid hp =
      let (valid, _, size) = is_valid-header no_address 0 false id 0 [] hid hp in
      rw (valid, size) (hand_over-header no_address 0 false id 0 [] (at c rest later q))
  handle_message-at id (x ∷ p) rest later q hid hp =
      let (valid, _, size) = is_valid-header no_address 0 false id (length (x ∷ p)) [] hid hp in
      let nonzero : (length (x ∷ p) == 0) ≡ false = ground arith in
      rw (valid, size, nonzero) (handle_payload-at id (x ∷ p) rest later q (omega arith) hp)

  handle_data-at :
      (id : ℕ) (p rest : List ℕ) (later : List Arrival) (q : Queue (List ℕ))
      → id < 256
      → length p < largest_payload
      → handle_data
          (at c (wire id p ++ rest) (plenty ∷ (if length p == 0 then later else plenty ∷ later)) q)
        ≡ done (true, at c rest later (ThreadedQueue.enqueue (wire id p) q))
  unfolding handle_data Message.replace
  handle_data-at id p rest later q hid hp =
      rw
        (
          new-header no_address 0,
          receive-at consume header_size c (wire id p ++ rest)
              (if length p == 0 then later else plenty ∷ later) q (omega arith) (omega arith)
              (omega arith),
        )
        (handle_message-at id p rest later q hid hp)

  -- One round of the read thread at the start of a message: it is taken off the stream and put in the
  -- queue, and the loop goes on.
  pub read_round-wire :
      (id : ℕ) (p rest : List ℕ) (later : List Arrival) (q : Queue (List ℕ))
      → id < 256
      → length p < largest_payload
      → read_round (at c (wire id p ++ rest) (answers p later) q)
        ≡ done (true, at c rest later (ThreadedQueue.enqueue (wire id p) q))
  unfolding read_round read_message signature_ne Message.signature_eq Message.equal
  read_round-wire id p rest later q hid hp =
      rw
        (receive-at peek (length signature) c (wire id p ++ rest)
          (plenty ∷ (if length p == 0 then later else plenty ∷ later)) q (omega arith) (omega arith)
          (omega arith))
        (rw (handle_data-at id p rest later q hid hp))
