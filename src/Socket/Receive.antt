-- ===== src/Socket/Receive.antt =====
-- What a successful receive() has read, whatever the sizes in which the bytes arrive.
use navtechradar.Base.{
  ℕ, suc, ◌+◌, ◌-◌, ◌<◌, ◌≤◌, ◌≡◌, ◌≢◌, refl, sym, ap, ◌∙◌, min, arith, true, false, List, [], ◌∷◌,
  ◌++◌, append_assoc, append-nil,
}
use navtechradar.Base.{
  All, length, length-append, length-take, length-drop, take, drop, take-append-drop, ltb, ltb→lt,
  lt→ltb, ◌==◌, Bool-cases, inl, inr,
}
use navtechradar.Socket.{
  Arrival, Line, Received, returned, blocked, consume, peek, receive_loop, receive, status, left,
  after, ReceiveOption, got, closed, failed, Outcome,
}

-- A call that returns has taken `taken` of the stream into the vector.
abbrev Reads : ℕ → ℕ → List ℕ → Line → ℕ → List ℕ → Line → Type 0
Reads want read bytes line n bytes' line' =
    (n ≡ want)
    × (taken : List ℕ) × (line.stream ≡ taken ++ line'.stream)
    × (bytes' ≡ bytes ++ taken)
    × (length taken + read ≡ want)

ended :
    (read want n : ℕ) (bytes bytes' : List ℕ) (line line' : Line)
    → read ≤ want
    → ltb read want ≡ false
    → read ≡ n
    → bytes ≡ bytes'
    → line ≡ line'
    → Reads want read bytes line n bytes' line'
ended read want n bytes bytes' line line' le done hn hb hl = (
  ground arith,
  [],
  ap (λ (l : Line). l.stream) hl,
  sym hb ∙ sym (append-nil bytes),
  ground arith,
)

status_bound :
    (o : Outcome) (room : ℕ) (stream : List ℕ)
    → (status o room stream ≤ room) × (status o room stream ≤ length stream)
status_bound (got bound) room stream = omega arith
status_bound closed room stream = omega arith
status_bound failed room stream = omega arith

-- One call of recv before the rest of the loop.
joined :
    (count want read : ℕ) (bytes bytes' : List ℕ) (line mid line' : Line) (n : ℕ)
    → count ≤ length line.stream
    → mid.stream ≡ drop count line.stream
    → Reads want (read + count) (bytes ++ take count line.stream) mid n bytes' line'
    → Reads want read bytes line n bytes' line'
joined count want read bytes bytes' line mid line' n le hm (hn, taken, hs, hb, hl) =
    let now : List ℕ = take count line.stream in
    (
      hn,
      now ++ taken,
      sym (take-append-drop count line.stream)
          ∙ ap (◌++◌ now) (sym hm ∙ hs)
          ∙ sym (append_assoc now taken line'.stream),
      hb ∙ append_assoc bytes now taken,
      omega (arith, length-append now taken, length-take count line.stream),
    )

abbrev count_of : Received → ℕ
count_of (returned n bytes line later) = n
count_of blocked = 0

returned_count :
    {n m : ℕ} {bytes bytes' : List ℕ} {line line' : Line} {later later' : List Arrival}
    → returned n bytes line later ≡ returned m bytes' line' later'
    → n ≡ m
returned_count e = ap count_of e

receive_loop-consume :
    (want read : ℕ) (bytes : List ℕ) (line : Line) (arrivals : List Arrival) (n : ℕ)
    (bytes' : List ℕ) (line' : Line) (later' : List Arrival)
    → read ≤ want
    → receive_loop consume want read bytes line arrivals ≡ returned n bytes' line' later'
    → n ≢ 0
    → Reads want read bytes line n bytes' line'
unfolding receive_loop
receive_loop-consume want read bytes line [] n bytes' line' later' le e ne =
    ended read want n bytes bytes' line line' le (ground arith) (ground arith) (ground arith)
      (ground arith)
receive_loop-consume want read bytes line (a ∷ later) n bytes' line' later' le e ne =
    elim (Bool-cases (ltb read want)) [
      | inr done ↦
          ended read want n bytes bytes' line line' le done (ground arith) (ground arith)
            (ground arith)
      | inl more ↦ elim (Bool-cases (count == 0)) [
        | inl none_read ↦ absurd (ne (sym (returned_count (rw (more, none_read) at e))))
        | inr some_read ↦ elim (Bool-cases a.still_open) [
          | inl is_open ↦
              joined count want read bytes bytes' line (after consume count a line) line' n
                (status_bound a.outcome (want - read) line.stream).1 refl
                (receive_loop-consume want (read + count) (bytes ++ take count line.stream)
                  (after consume count a line) later n bytes' line' later'
                  (omega (
                    arith,
                    status_bound a.outcome (want - read) line.stream,
                    ltb→lt read want more,
                  ))
                  (rw (more, some_read, is_open) at e) ne)
          | inr is_shut ↦ absurd (ne (sym (returned_count (rw (more, some_read, is_shut) at e))))
        ]
      ]
    ]
  where
    count : ℕ
    count = status a.outcome (want - read) line.stream

-- A receive() that returns a count other than 0 has taken exactly the wanted bytes: the vector ends
-- in the first `want` bytes of the stream, and the stream goes on behind them. The bytes may have
-- come in pieces of any sizes.
pub receive-consume :
    (want : ℕ) (bytes : List ℕ) (line : Line) (arrivals : List Arrival) (n : ℕ) (bytes' : List ℕ)
    (line' : Line) (later : List Arrival)
    → receive consume want bytes line arrivals ≡ returned n bytes' line' later
    → n ≢ 0
    → (n ≡ want)
      × (taken : List ℕ) × (line.stream ≡ taken ++ line'.stream)
      × (bytes' ≡ bytes ++ taken)
      × (length taken ≡ want)
unfolding receive
receive-consume want bytes line arrivals n bytes' line' later e ne =
    let (hn, taken, hs, hb, hl) =
      receive_loop-consume want 0 bytes line arrivals n bytes' line' later (omega arith) e ne in
    (hn, taken, hs, hb, omega arith)

-- A call of recv that gives a byte at least and leaves the socket open.
abbrev pub Gives : Arrival → Type 0
Gives a = (bound : ℕ) × (a.outcome ≡ got (suc bound)) × (a.still_open ≡ true)

receive_loop-total :
    (want read : ℕ) (bytes : List ℕ) (line : Line) (arrivals : List Arrival)
    → read ≤ want
    → want ≤ read + length line.stream
    → want ≤ read + length arrivals
    → All Gives arrivals
    → (bytes' : List ℕ) × (line' : Line) × (later : List Arrival) × (receive_loop consume want read
          bytes line arrivals
        ≡ returned want bytes' line' later)
unfolding receive_loop
receive_loop-total want read bytes line [] le ls la g = (bytes, line, [], ground arith)
receive_loop-total want read bytes line (a ∷ later) le ls la ((bound, ho, hs), g) =
    elim (Bool-cases (ltb read want)) [
      | inr done ↦ (bytes, line, a ∷ later, ground arith)
      | inl more ↦
          let count : ℕ = status (got (suc bound)) (want - read) line.stream in
          let lt : read < want = ltb→lt read want more in
          let nonzero : (count == 0) ≡ false = ground arith in
          let (bytes', line', later', e) =
            receive_loop-total want (read + count) (bytes ++ take count line.stream)
              (after consume count a line) later (omega arith)
              (omega (arith, length-drop count line.stream)) (omega arith) g in
          (bytes', line', later', rw (more, ho, nonzero, hs) e)
    ]

-- If the stream holds the wanted bytes and each call of recv gives some, receive() returns after at
-- most as many calls as there are bytes, with the full count.
pub receive-total :
    (want : ℕ) (bytes : List ℕ) (line : Line) (arrivals : List Arrival)
    → want ≤ length line.stream
    → want ≤ length arrivals
    → All Gives arrivals
    → (bytes' : List ℕ) × (line' : Line) × (later : List Arrival) × (receive consume want bytes line
          arrivals
        ≡ returned want bytes' line' later)
unfolding receive
receive-total want bytes line arrivals hs ha g =
    receive_loop-total want 0 bytes line arrivals (omega arith) (omega arith) (omega arith) g

-- An answer of recv with the client running and the socket open at its end.
abbrev pub gives : ℕ → Arrival
gives bound = record { outcome = got bound; still_open = true; still_running = true }

receive_loop-full :
    (flag : ReceiveOption) (want : ℕ) (bytes : List ℕ) (line : Line) (arrivals : List Arrival)
    → receive_loop flag want want bytes line arrivals ≡ returned want bytes line arrivals
unfolding receive_loop
receive_loop-full flag want bytes line [] = ground arith
receive_loop-full flag want bytes line (a ∷ later) = ground arith

receive_loop-gives :
    (flag : ReceiveOption) (want read bound c next : ℕ) (bytes : List ℕ) (line : Line)
    (later : List Arrival)
    → read < want
    → min bound (min (want - read) (length line.stream)) ≡ c
    → c ≢ 0
    → read + c ≡ next
    → receive_loop flag want read bytes line (gives bound ∷ later)
      ≡ receive_loop flag want next
          (bytes ++ take c line.stream)
          (record { stream = left flag c line.stream; running = true })
          later
unfolding receive_loop
receive_loop-gives flag want read bound c next bytes line later lt e ne hn =
    let nonzero : (c == 0) ≡ false = ground arith in rw (lt→ltb read want lt, e, nonzero, hn)

-- One call of recv that gives all that is wanted is enough.
pub receive-gives :
    (flag : ReceiveOption) (want bound : ℕ) (bytes : List ℕ) (line : Line) (later : List Arrival)
    → 0 < want
    → want ≤ bound
    → want ≤ length line.stream
    → receive flag want bytes line (gives bound ∷ later)
      ≡ returned want
          (bytes ++ take want line.stream)
          (record { stream = left flag want line.stream; running = true })
          later
unfolding receive
receive-gives flag want bound bytes line later h hb hs =
    receive_loop-gives flag want 0 bound want want bytes line later h (omega arith) (omega arith)
      (omega arith)
    ∙ receive_loop-full flag want (bytes ++ take want line.stream) _ later

-- A receive() that peeks and gets its bytes in two pieces has the first piece and then, again from
-- the start of the stream, as many bytes as were wanted still.
pub receive-peek_twice :
    (want k : ℕ) (line : Line) (later : List Arrival)
    → 0 < k
    → k < want
    → want ≤ length line.stream
    → receive peek want [] line (gives k ∷ gives want ∷ later)
      ≡ returned want
          (take k line.stream ++ take (want - k) line.stream)
          (record { stream = line.stream; running = true })
          later
unfolding receive
receive-peek_twice want k line later h0 hk hw =
    receive_loop-gives peek want 0 k k k [] line (gives want ∷ later) (omega arith) (omega arith)
      (omega arith) (omega arith)
    ∙ receive_loop-gives peek want k want (want - k) want (take k line.stream)
        (record { stream = line.stream; running = true }) later hk (omega arith) (omega arith)
        (omega arith)
    ∙ receive_loop-full peek want (take k line.stream ++ take (want - k) line.stream) _ later
