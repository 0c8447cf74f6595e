-- ===== src/TcpClient/Stream.antt =====
-- The read thread on a stream of whole messages, and at the end of a stream.
use navtechradar.Base.{
  ℕ, zero, suc, ◌+◌, ◌<◌, ◌≤◌, ◌≡◌, refl, ap, ◌∙◌, arith, true, ◌&&◌, List, [], ◌∷◌, ◌++◌,
}
use navtechradar.Base.{length, All, take, drop}
use navtechradar.ThreadedQueue.{Queue}
use navtechradar.ThreadedQueue
use navtechradar.Socket.{Arrival, peek, consume, closed}
use navtechradar.Socket.Receive.{gives, receive-gives, receive-peek_twice}
use navtechradar.Socket
use navtechradar.Colossus.Message.{largest_payload, signature, signature_ne}
use navtechradar.Colossus.Message
use navtechradar.Colossus.Message.Wire.{wire}
use navtechradar.TcpClient.{Client, is_running}
use navtechradar.TcpClient.Reader.{done, outcome, receive, resynchronise, read_round, read_thread}
use navtechradar.TcpClient.Frames.{at, answers, read_round-wire}

-- A message as its type identifier and its payload.
abbrev pub IsSendable : ℕ × List ℕ → Type 0
IsSendable (id, p) = (id < 256) × (length p < largest_payload)

-- The messages in their order, ahead of the rest of the stream.
abbrev pub wires : List (ℕ × List ℕ) → List ℕ → List ℕ
wires [] rest = rest
wires ((id, p) ∷ ms) rest = wire id p ++ wires ms rest

abbrev pub all_answers : List (ℕ × List ℕ) → List Arrival → List Arrival
all_answers [] later = later
all_answers ((id, p) ∷ ms) later = answers p (all_answers ms later)

abbrev pub enqueue_all : List (ℕ × List ℕ) → Queue (List ℕ) → Queue (List ℕ)
enqueue_all [] q = q
enqueue_all ((id, p) ∷ ms) q = enqueue_all ms (ThreadedQueue.enqueue (wire id p) q)

pub read_thread-round :
    (c c' : Client) (fuel n : ℕ)
    → c.reading && is_running c ≡ true
    → read_round c ≡ done (true, c')
    → read_thread (suc n + fuel) c ≡ read_thread (n + fuel) c'
unfolding read_thread
read_thread-round c c' fuel n on e =
    let step : suc n + fuel ≡ suc (n + fuel) = omega arith in
    ap (λ (m : ℕ). read_thread m c) step ∙ rw (on, e)

-- On a stream of messages of the protocol whose bytes recv gives as they are asked for, the read
-- thread calls enqueue() with each message, once, whole and in order, and stands behind the last one.
pub read_thread-wires :
    (c : Client) (ms : List (ℕ × List ℕ)) (rest : List ℕ) (later : List Arrival)
    (q : Queue (List ℕ)) (fuel : ℕ)
    → All IsSendable ms
    → read_thread (length ms + fuel) (at c (wires ms rest) (all_answers ms later) q)
      ≡ read_thread fuel (at c rest later (enqueue_all ms q))
read_thread-wires c [] rest later q fuel h =
    ap (λ (n : ℕ). read_thread n (at c rest later q)) (omega arith)
read_thread-wires c ((id, p) ∷ ms) rest later q fuel ((hid, hp), h) =
    read_thread-round _ _ fuel (length ms) refl
      (read_round-wire c id p (wires ms rest) (all_answers ms later) q hid hp)
    ∙ (read_thread-wires c ms rest later (ThreadedQueue.enqueue (wire id p) q) fuel h)

-- An answer of recv on a connection that the peer has closed.
abbrev pub hung_up : Arrival
hung_up = record { outcome = closed; still_open = true; still_running = true }

abbrev pub hung_ups : ℕ → List Arrival → List Arrival
hung_ups zero later = later
hung_ups (suc n) later = hung_up ∷ hung_ups n later

round-hung_up :
    (c : Client) (stream : List ℕ) (later : List Arrival) (q : Queue (List ℕ))
    → read_round (at c stream (hung_up ∷ later) q) ≡ done (true, at c stream later q)
unfolding read_round receive Socket.receive Socket.receive_loop
round-hung_up c stream later q = refl

-- On a connection that the peer has closed, the read thread goes round as often as recv answers: it
-- neither ends nor leaves the connection state that it was in.
pub read_thread-hung_up :
    (c : Client) (n : ℕ) (stream : List ℕ) (later : List Arrival) (q : Queue (List ℕ)) (fuel : ℕ)
    → read_thread (n + fuel) (at c stream (hung_ups n later) q)
      ≡ read_thread fuel (at c stream later q)
read_thread-hung_up c zero stream later q fuel =
    ap (λ (n : ℕ). read_thread n (at c stream later q)) (omega arith)
read_thread-hung_up c (suc n) stream later q fuel =
    read_thread-round _ _ fuel n refl (round-hung_up c stream (hung_ups n later) q)
    ∙ (read_thread-hung_up c n stream later q fuel)

split_peek :
    (c : Client) (stream : List ℕ) (later : List Arrival) (q : Queue (List ℕ))
    → 16 ≤ length stream
    → receive peek 16 [] (at c stream (gives 1 ∷ gives 16 ∷ later) q)
      ≡ done (16, take 1 stream ++ take 15 stream, at c stream later q)
unfolding receive
split_peek c stream later q h = ap (outcome (at c stream (gives 1 ∷ gives 16 ∷ later) q)) (
    receive-peek_twice 16 1 (record { stream = stream; running = true }) later (omega arith)
      (omega arith) h)

skip_byte :
    (c : Client) (seen stream : List ℕ) (later : List Arrival) (q : Queue (List ℕ))
    → 1 ≤ length stream
    → resynchronise seen (at c stream (gives 1 ∷ later) q)
      ≡ done (true, at c (drop 1 stream) later q)
unfolding resynchronise receive
skip_byte c seen stream later q h = rw (
    receive-gives consume 1 1 seen (record { stream = stream; running = true }) later (omega arith)
      (omega arith) h)

-- If the first byte of a message has arrived and the others have not, the peek sees that byte twice,
-- takes it for noise, and the message is lost: the thread drops the first byte of its signature.
pub round-split_peek :
    (c : Client) (id : ℕ) (p rest : List ℕ) (later : List Arrival) (q : Queue (List ℕ))
    → read_round (at c (wire id p ++ rest) (gives 1 ∷ gives 16 ∷ gives 1 ∷ later) q)
      ≡ done (true, at c (drop 1 (wire id p ++ rest)) later q)
unfolding read_round signature_ne Message.signature_eq Message.equal
round-split_peek c id p rest later q =
    rw (split_peek c (wire id p ++ rest) (gives 1 ∷ later) q (omega arith))
      (skip_byte c _ (wire id p ++ rest) later q (omega arith))
