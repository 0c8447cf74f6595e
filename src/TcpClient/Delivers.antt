-- ===== src/TcpClient/Delivers.antt =====
-- What the read thread puts in the queue, whatever the peer sends and however it arrives.
use navtechradar.Base.{
  ℕ, ◌<◌, ◌≡◌, ◌≢◌, refl, sym, ap, ◌∙◌, ◌^◌, subst, arith, Bool, true, false, List, [], ◌∷◌, ◌++◌,
  Option, none, some,
}
use navtechradar.Base.{◌==◌, length, All, eq→≡, Bool-cases, ◌⊎◌, inl, inr}
use navtechradar.Base.Bytes.{IsByte, All-append_left}
use navtechradar.IpAddress.{IpAddress}
use navtechradar.ThreadedQueue
use navtechradar.Socket.{Line, Arrival, ReceiveOption, consume, peek, Received, returned, blocked}
use navtechradar.Socket
use navtechradar.Socket.Receive.{receive-consume}
use navtechradar.Colossus.Message.{Message, header_size, largest_payload}
use navtechradar.Colossus.Message
use navtechradar.Colossus.Message.Wire.{
  message, header, wire, new-header, append-header, relinquish-header,
}
use navtechradar.Colossus.Message.Valid.{is_valid_sound, is_valid-header}
use navtechradar.TcpClient.{Client, disconnected, set_connection_state, ConnectionState}
use navtechradar.TcpClient.Reader.{
  Run, done, waits, fault, short, ◌>>=◌, defined, outcome, receive, is_broken, enqueue, hand_over,
  handle_payload, handle_message, handle_data, no_address,
}

pub >>=-done {ℓ κ} :
    {A : Type ℓ} {B : Type κ} (m : Run A) (f : A → Run B) {b : B}
    → (m >>= f) ≡ done b
    → (a : A) × (m ≡ done a) × (f a ≡ done b)
>>=-done (done a) f h = (a, refl, h)
>>=-done waits f h = cc
>>=-done fault f h = cc
>>=-done short f h = cc

pub done-injective {ℓ} : {A : Type ℓ} {a b : A} → done a ≡ done b → a ≡ b
done-injective e = cc

-- The thread has put a whole message of the protocol in the queue, and taken just its bytes off the
-- stream; or the queue is as it was.
pub data Takes (c c' : Client) : Type 0 where
  delivered :
      (id : ℕ) (p : List ℕ)
      → id < 256
      → length p < largest_payload
      → c.line.stream ≡ wire id p ++ c'.line.stream
      → c'.queue ≡ ThreadedQueue.enqueue (wire id p) c.queue
      → Takes c c'
  nothing : c'.queue ≡ c.queue → Takes c c'

outcome_lem :
    (want : ℕ) (bytes : List ℕ) (c c' : Client) (n : ℕ) (bytes' : List ℕ) (r : Received)
    → Socket.receive consume want bytes c.line c.arrivals ≡ r
    → outcome c r ≡ done (n, bytes', c')
    → n ≢ 0
    → (taken : List ℕ) × (c.line.stream ≡ taken ++ c'.line.stream)
      × (bytes' ≡ bytes ++ taken)
      × (length taken ≡ want)
outcome_lem want bytes c c' n bytes' blocked e h ne = cc
outcome_lem want bytes c c' n bytes' (returned m got line later) e h ne =
    let same : (m, got, record c { line = line; arrivals = later }) ≡ (n, bytes', c') =
      done-injective h in
    let (hn, taken, hs, hb, hl) =
      receive-consume want bytes c.line c.arrivals m got line later e
        (λ z. ne (sym (ap (λ t. t.0) same) ∙ z)) in
    (taken, hs ∙ ap (λ t. taken ++ t.2.line.stream) same, sym (ap (λ t. t.1) same) ∙ hb, hl)

outcome-queue :
    (c c' : Client) (n : ℕ) (bytes : List ℕ) (r : Received)
    → outcome c r ≡ done (n, bytes, c')
    → c'.queue ≡ c.queue
outcome-queue c c' n bytes blocked h = cc
outcome-queue c c' n bytes (returned m got line later) h = ground arith

receive_lem :
    (want : ℕ) (bytes : List ℕ) (c c' : Client) (n : ℕ) (bytes' : List ℕ)
    → receive consume want bytes c ≡ done (n, bytes', c')
    → n ≢ 0
    → (taken : List ℕ) × (c.line.stream ≡ taken ++ c'.line.stream)
      × (bytes' ≡ bytes ++ taken)
      × (length taken ≡ want)
unfolding receive
receive_lem want bytes c c' n bytes' h ne = outcome_lem want bytes c c' n bytes' _ refl h ne

pub receive-queue :
    (flag : ReceiveOption) (want : ℕ) (bytes : List ℕ) (c c' : Client) (n : ℕ) (bytes' : List ℕ)
    → receive flag want bytes c ≡ done (n, bytes', c')
    → c'.queue ≡ c.queue
unfolding receive
receive-queue flag want bytes c c' n bytes' h = outcome-queue c c' n bytes' _ h

pub set_connection_state-queue :
    (s : ConnectionState) (c : Client) → (set_connection_state s c).queue ≡ c.queue
unfolding set_connection_state
set_connection_state-queue s c = ground arith

unbroken : (n : ℕ) (c : Client) → is_broken n c ≡ false → n ≢ 0
unbroken n c h = ground arith

-- The same once the header was read: the stream goes on with the payload.
abbrev TakesPayload : ℕ → ℕ → Client → Client → Type 0
TakesPayload id n c c' =
    ((p : List ℕ) × (length p ≡ n)
      × (c.line.stream ≡ p ++ c'.line.stream)
      × (c'.queue ≡ ThreadedQueue.enqueue (wire id p) c.queue))
    ⊎ (c'.queue ≡ c.queue)

nil_of_length : (xs : List ℕ) → length xs ≡ 0 → xs ≡ []
nil_of_length [] h = refl
nil_of_length (x ∷ xs) h = absurd (omega arith)

valid_cases : (o : Option Bool) → (o ≡ some true) ⊎ ((o ≡ some false) ⊎ (o ≡ none))
valid_cases none = inr (inr refl)
valid_cases (some true) = inl refl
valid_cases (some false) = inr (inl refl)

module _ (a : IpAddress) (i : ℕ) (hp : Bool) where
  -- The payload `p` behind a header, put in the queue.
  pub payload_done :
      (id n : ℕ) (p : List ℕ) (c : Client)
      → length p < 2 ^ 32
      → (defined (Message.append p (message a i hp (header id n))) >>= λ whole. hand_over whole c)
        ≡ done (true, enqueue (wire id p) c)
  unfolding hand_over
  payload_done id n p c small =
      rw (append-header a i hp id n [] p small, relinquish-header a i true id (length p) p)

  pub hand_over-header :
      (id n : ℕ) (p : List ℕ) (c : Client)
      → hand_over (message a i hp (header id n ++ p)) c ≡ done (true, enqueue (header id n ++ p) c)
  unfolding hand_over
  hand_over-header id n p c = rw (relinquish-header a i hp id n p)

  handle_payload_lem :
      (id n : ℕ) (c c' : Client) (b : Bool)
      → id < 256
      → n < largest_payload
      → handle_payload (message a i hp (header id n)) n c ≡ done (b, c')
      → TakesPayload id n c c'
  unfolding handle_payload
  handle_payload_lem id n c c' b hid hn h =
      let ((m, got, c1), e1, e2) = >>=-done (receive consume n [] c) _ h in
      elim (Bool-cases (is_broken m c1)) [
        | inl broken ↦ inr (
            sym (ap (λ r. r.1.queue) (done-injective (rw broken at e2)))
            ∙ set_connection_state-queue disconnected c1
            ∙ receive-queue consume n [] c c1 m got e1)
        | inr sound ↦
            let (p, hs, hb, hl) = receive_lem n [] c c1 m got e1 (unbroken m c1 sound) in
            let same : (true, enqueue (wire id p) c1) ≡ (b, c') =
              done-injective
                (sym (payload_done id n p c1 (omega arith)) ∙ (rw (sound, hb) at e2)) in
            inl (
              p,
              hl,
              hs ∙ ap (λ r. p ++ r.1.line.stream) same,
              sym (ap (λ r. r.1.queue) same)
                  ∙ ap (ThreadedQueue.enqueue (wire id p))
                      (receive-queue consume n [] c c1 m got e1),
            )
      ]

  handle_message-header :
      (id n : ℕ) (c c' : Client) (b : Bool)
      → id < 256
      → n < largest_payload
      → handle_message (message a i hp (header id n)) c ≡ done (b, c')
      → TakesPayload id n c c'
  unfolding handle_message
  handle_message-header id n c c' b hid hn h =
      let (valid, _, size) = is_valid-header a i hp id n [] hid hn in
      elim (Bool-cases (n == 0)) [
        | inr some_payload ↦
            handle_payload_lem id n c c' b hid hn (rw (valid, size, some_payload) at h)
        | inl no_payload ↦
            let same : (true, enqueue (header id n) c) ≡ (b, c') =
              done-injective
                (sym (hand_over-header id n [] c) ∙ (rw (valid, size, no_payload) at h)) in
            inl (
              [],
              sym (eq→≡ n 0 no_payload),
              ap (λ r. r.1.line.stream) same,
              sym (ap (λ r. r.1.queue) same)
                  ∙ ap (λ k. ThreadedQueue.enqueue (header id k) c.queue) (eq→≡ n 0 no_payload),
            )
      ]

  -- A header's worth of bytes, as handle_data() has read it.
  handle_message_lem :
      (bytes : List ℕ) (c c' : Client) (b : Bool)
      → length bytes ≡ header_size
      → All IsByte bytes
      → handle_message (message a i hp bytes) c ≡ done (b, c')
      → (c'.queue ≡ c.queue)
        ⊎ ((id : ℕ) × (n : ℕ) × (id < 256)
            × (n < largest_payload)
            × (bytes ≡ header id n)
            × TakesPayload id n c c')
  unfolding handle_message
  handle_message_lem bytes c c' b hl byte h =
      elim (valid_cases (Message.is_valid (message a i hp bytes))) [
        | inl valid ↦
            let (id, n, p, e, hid, hn) = is_valid_sound (message a i hp bytes) byte valid in
            let only : p ≡ [] = nil_of_length p (omega (arith, hl, ap length e)) in
            let whole : bytes ≡ header id n = e ∙ ap (λ q. header id n ++ q) only in
            inr (
              id,
              n,
              hid,
              hn,
              whole,
              handle_message-header id n c c' b hid hn
                  (subst (λ bs. handle_message (message a i hp bs) c ≡ done (b, c')) whole h),
            )
        | inr (inl invalid) ↦ inl (sym (ap (λ r. r.1.queue) (done-injective (rw invalid at h))))
        | inr (inr undefined) ↦ cc (rw undefined at h)
      ]

after_payload :
    (c c1 c' : Client) (id n : ℕ)
    → c.line.stream ≡ header id n ++ c1.line.stream
    → c1.queue ≡ c.queue
    → id < 256
    → n < largest_payload
    → TakesPayload id n c1 c'
    → Takes c c'
after_payload c c1 c' id n hs hq hid hn (inl (p, hl, hp, he)) =
    delivered id p hid (omega arith)
      (hs
        ∙ ap (λ (q : List ℕ). header id n ++ q) hp
        ∙ ap (λ (k : ℕ). header id k ++ (p ++ c'.line.stream)) (sym hl))
      (he ∙ ap (ThreadedQueue.enqueue (wire id p)) hq)
after_payload c c1 c' id n hs hq hid hn (inr same) = nothing (same ∙ hq)

after_header :
    (c c1 c' : Client) (taken : List ℕ)
    → c.line.stream ≡ taken ++ c1.line.stream
    → c1.queue ≡ c.queue
    → (c'.queue ≡ c1.queue)
      ⊎ ((id : ℕ) × (n : ℕ) × (id < 256)
          × (n < largest_payload)
          × (taken ≡ header id n)
          × TakesPayload id n c1 c')
    → Takes c c'
after_header c c1 c' taken hs hq (inl same) = nothing (same ∙ hq)
after_header c c1 c' taken hs hq (inr (id, n, hid, hn, e, t)) =
    after_payload c c1 c' id n (hs ∙ ap (λ xs. xs ++ c1.line.stream) e) hq hid hn t

-- Whatever handle_data() reads, and in whatever pieces, it puts in the queue either a whole message of
-- the protocol, whose bytes are those it has taken off the stream, or nothing.
pub handle_data-Takes :
    (c c' : Client) (b : Bool)
    → All IsByte c.line.stream
    → handle_data c ≡ done (b, c')
    → Takes c c'
unfolding handle_data Message.replace
handle_data-Takes c c' b byte h =
    let ((m, got, c1), e1, e2) =
      >>=-done (receive consume header_size [] c) _ (rw (new-header no_address 0) at h) in
    elim (Bool-cases (is_broken m c1)) [
      | inl broken ↦ nothing (
          sym (ap (λ r. r.1.queue) (done-injective (rw broken at e2)))
          ∙ set_connection_state-queue disconnected c1
          ∙ receive-queue consume header_size [] c c1 m got e1)
      | inr sound ↦
          let (taken, hs, hb, hl) =
            receive_lem header_size [] c c1 m got e1 (unbroken m c1 sound) in
          after_header c c1 c' taken hs (receive-queue consume header_size [] c c1 m got e1) (
            handle_message_lem no_address 0 false taken c1 c' b hl
              (All-append_left IsByte taken c1.line.stream (subst (All IsByte) hs byte))
              (rw (sound, hb) at e2))
    ]
