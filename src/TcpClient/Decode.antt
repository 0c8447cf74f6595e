-- ===== src/TcpClient/Decode.antt =====
-- How a stream of bytes is to be cut into messages, apart from any thread, and that the read thread
-- cuts it so.
use navtechradar.Base.{
  ℕ, zero, suc, ◌+◌, ◌<◌, ◌≤◌, ◌^◌, ◌≡◌, ◌≢◌, ◌⊎◌, inl, inr, refl, sym, ap, ◌∙◌, append-nil, arith,
  Bool, true, false, List, [], ◌∷◌, ◌++◌, some,
}
use navtechradar.Base.{length, length-append, take, ◌==◌, Bool-cases}
use navtechradar.Base.Bytes.{be_bytes, of_le, read_bytes, byte_swap-of_le-be_bytes}
use navtechradar.NetConversion.{htonl}
use navtechradar.ThreadedQueue.{Queue}
use navtechradar.ThreadedQueue
use navtechradar.Socket.{Arrival, peek, consume}
use navtechradar.Socket.Receive.{receive-gives}
use navtechradar.Colossus.Message.{
  signature, version, largest_payload, header_size, signature_ne, equal, is_valid,
}
use navtechradar.Colossus.Message
use navtechradar.Colossus.Message.Wire.{wire, message, new-header}
use navtechradar.Colossus.Message.Valid.{equal_sound}
use navtechradar.TcpClient.{Client}
use navtechradar.TcpClient.Reader.{
  no_address, done, receive, handle_data, handle_message, resynchronise, read_message, read_round,
  read_thread,
}
use navtechradar.TcpClient.Frames.{at, plenty, answers, receive-at, read_round-wire}
use navtechradar.TcpClient.Stream.{IsSendable, enqueue_all, read_thread-round}

-- A header whose version is another, or whose payload size is not below the limit.
abbrev pub header_with : ℕ → ℕ → ℕ → List ℕ
header_with v id n = signature ++ (v ∷ id ∷ be_bytes 4 n)

-- A stream, the messages in it, and what is left: where the signature does not stand a byte is passed
-- over, a header that is not valid is passed over whole, and a message is taken.
pub data Decodes : List ℕ → List (ℕ × List ℕ) → List ℕ → Type 0 where
  stops : (s : List ℕ) → Decodes s [] s
  noise :
      (b : ℕ) (s : List ℕ) (ms : List (ℕ × List ℕ)) (rest : List ℕ)
      → 15 ≤ length s
      → take 16 (b ∷ s) ≢ signature
      → Decodes s ms rest
      → Decodes (b ∷ s) ms rest
  skips :
      (v id n : ℕ) (s : List ℕ) (ms : List (ℕ × List ℕ)) (rest : List ℕ)
      → id < 256
      → n < 2 ^ 32
      → (v ≢ version) ⊎ (largest_payload ≤ n)
      → Decodes s ms rest
      → Decodes (header_with v id n ++ s) ms rest
  takes :
      (id : ℕ) (p s : List ℕ) (ms : List (ℕ × List ℕ)) (rest : List ℕ)
      → IsSendable (id, p)
      → Decodes s ms rest
      → Decodes (wire id p ++ s) ((id, p) ∷ ms) rest

-- How many rounds it takes, and with which answers of recv.
pub rounds : {s : List ℕ} {ms : List (ℕ × List ℕ)} {rest : List ℕ} → Decodes s ms rest → ℕ
rounds (stops s) = 0
rounds (noise b s ms rest h k dec) = suc (rounds dec)
rounds (skips v id n s ms rest hi hn h dec) = suc (rounds dec)
rounds (takes id p s ms rest h dec) = suc (rounds dec)

pub decode_answers :
    {s : List ℕ} {ms : List (ℕ × List ℕ)} {rest : List ℕ}
    → Decodes s ms rest
    → List Arrival
    → List Arrival
decode_answers (stops s) later = later
decode_answers (noise b s ms rest h k dec) later = plenty ∷ plenty ∷ decode_answers dec later
decode_answers (skips v id n s ms rest hi hn h dec) later =
    plenty ∷ plenty ∷ decode_answers dec later
decode_answers (takes id p s ms rest h dec) later = answers p (decode_answers dec later)

pub equal-total : (xs ys : List ℕ) → length xs ≤ length ys → (b : Bool) × (equal xs ys ≡ some b)
unfolding equal
equal-total [] ys h = (true, refl)
equal-total (x ∷ xs) [] h = absurd (omega arith)
equal-total (x ∷ xs) (y ∷ ys) h = elim (Bool-cases (x == y)) [
  | inl same ↦ let (b, e) = equal-total xs ys (omega arith) in (b, rw (same, e) refl)
  | inr other ↦ (false, rw other refl)
]

same_length : (xs ys rest : List ℕ) → ys ≡ xs ++ rest → length ys ≤ length xs → xs ≡ ys
same_length xs ys [] e h = sym (e ∙ append-nil xs)
same_length xs ys (r ∷ rest) e h =
    absurd (omega (arith, ap (λ (zs : List ℕ). length zs) e, length-append xs (r ∷ rest)))

signature_ne-other :
    (seen : List ℕ) → length seen ≡ 16 → seen ≢ signature → signature_ne seen ≡ some true
unfolding signature_ne Message.signature_eq
signature_ne-other seen h other =
    let (b, e) = equal-total seen signature (omega arith) in
    elim (Bool-cases b) [
      | inl same ↦
          let (rest, found) = equal_sound seen signature (e ∙ ap some same) in
          absurd (other (same_length seen signature rest found (omega arith)))
      | inr differs ↦ rw (e, differs) refl
    ]

pub length-take : (n : ℕ) (xs : List ℕ) → n ≤ length xs → length (take n xs) ≡ n
length-take zero xs h = refl
length-take (suc n) [] h = absurd (omega arith)
length-take (suc n) (x ∷ xs) h = ap suc (length-take n xs (omega arith))

module _ (c : Client) where
  skip_byte :
      (b : ℕ) (seen s : List ℕ) (later : List Arrival) (q : Queue (List ℕ))
      → resynchronise seen (at c (b ∷ s) (plenty ∷ later) q) ≡ done (true, at c s later q)
  unfolding resynchronise receive
  skip_byte b seen s later q = rw (
      receive-gives consume 1 largest_payload seen (record { stream = b ∷ s; running = true }) later
        (omega arith) (omega arith) (omega arith))

  round-noise :
      (b : ℕ) (s : List ℕ) (later : List Arrival) (q : Queue (List ℕ))
      → 15 ≤ length s
      → take 16 (b ∷ s) ≢ signature
      → read_round (at c (b ∷ s) (plenty ∷ plenty ∷ later) q) ≡ done (true, at c s later q)
  unfolding read_round
  round-noise b s later q h other =
      rw
        (
          receive-at peek 16 c (b ∷ s) (plenty ∷ later) q (omega arith) (omega arith) (omega arith),
          signature_ne-other (take 16 (b ∷ s)) (length-take 16 (b ∷ s) (omega arith)) other,
        )
        (skip_byte b (take 16 (b ∷ s)) s later q)

  is_valid-other :
      (v id n : ℕ)
      → id < 256
      → n < 2 ^ 32
      → (v ≢ version) ⊎ (largest_payload ≤ n)
      → is_valid (message no_address 0 false (header_with v id n)) ≡ some false
  unfolding is_valid read_bytes
  is_valid-other v id n hi hn h =
      let size : htonl (of_le (be_bytes 4 n)) ≡ n = byte_swap-of_le-be_bytes 4 n hn in
      elim h [ inl other ↦ ground arith | inr big ↦ ground (arith, size) ]

  round-skips :
      (v id n : ℕ) (s : List ℕ) (later : List Arrival) (q : Queue (List ℕ))
      → id < 256
      → n < 2 ^ 32
      → (v ≢ version) ⊎ (largest_payload ≤ n)
      → read_round (at c (header_with v id n ++ s) (plenty ∷ plenty ∷ later) q)
        ≡ done (true, at c s later q)
  unfolding read_round read_message handle_data handle_message signature_ne Message.signature_eq
      equal Message.replace
  round-skips v id n s later q hi hn h =
      rw
        (receive-at peek 16 c (header_with v id n ++ s) (plenty ∷ later) q (omega arith)
          (omega arith) (omega arith))
        (rw
          (
            new-header no_address 0,
            receive-at consume header_size c (header_with v id n ++ s) later q (omega arith)
                (omega arith) (omega arith),
            is_valid-other v id n hi hn h,
          )
          refl)

  -- The read thread cuts a stream as it is to be cut, whatever is in it: with the rounds that it takes,
  -- and with a recv that gives the bytes as they are asked for, it calls enqueue() with each message in
  -- the stream, once, whole and in order, and with nothing else, and stands where the cut ends. The queue
  -- is any, and afterwards what these calls make of it, which drop what it has no place for.
  pub read_thread-Decodes :
      (s : List ℕ) (ms : List (ℕ × List ℕ)) (rest : List ℕ) (cut : Decodes s ms rest)
      → (later : List Arrival) (q : Queue (List ℕ)) (fuel : ℕ)
      → read_thread (rounds cut + fuel) (at c s (decode_answers cut later) q)
        ≡ read_thread fuel (at c rest later (enqueue_all ms q))
  unfolding rounds decode_answers
  read_thread-Decodes _ _ _ (stops s) later q fuel =
      ap (λ (n : ℕ). read_thread n (at c s later q)) (omega arith)
  read_thread-Decodes _ _ _ (noise b s ms rest h k cut) later q fuel =
      read_thread-round _ _ fuel (rounds cut) refl
        (round-noise b s (decode_answers cut later) q h k)
      ∙ read_thread-Decodes s ms rest cut later q fuel
  read_thread-Decodes _ _ _ (skips v id n s ms rest hi hn h cut) later q fuel =
      read_thread-round _ _ fuel (rounds cut) refl
        (round-skips v id n s (decode_answers cut later) q hi hn h)
      ∙ read_thread-Decodes s ms rest cut later q fuel
  read_thread-Decodes _ _ _ (takes id p s ms rest (hid, hp) cut) later q fuel =
      read_thread-round _ _ fuel (rounds cut) refl
        (read_round-wire c id p s (decode_answers cut later) q hid hp)
      ∙ read_thread-Decodes s ms rest cut later (ThreadedQueue.enqueue (wire id p) q) fuel
