-- ===== src/Socket/Remaining.antt =====
-- What a receive() leaves on the stream.
use navtechradar.Base.{ℕ, ◌+◌, ◌-◌, ◌≡◌, Bool, true, false, List, [], ◌∷◌, ◌++◌}
use navtechradar.Base.{All, take, ltb, ◌==◌, if◌then◌else◌}
use mathlib.Core.Path.{subst}
use navtechradar.Base.Bytes.{All-drop}
use navtechradar.Socket.{
  Arrival, Line, Received, returned, blocked, consume, peek, receive_loop, receive, status, left,
  after, ReceiveOption,
}

-- The stream that a receive() leaves, of a property that holds of each of its bytes.
abbrev Left : (ℕ → Type 0) → Received → Type 0
Left P (returned n bytes line later) = All P line.stream
Left P blocked = Unit {0}

left-All :
    (P : ℕ → Type 0) (flag : ReceiveOption) (count : ℕ) (stream : List ℕ)
    → All P stream
    → All P (left flag count stream)
left-All P consume count stream h = All-drop P count stream h
left-All P peek count stream h = h

Left-if :
    (P : ℕ → Type 0) (b : Bool) (r s : Received) → Left P r → Left P s → Left P (if b then r else s)
Left-if P true r s hr hs = hr
Left-if P false r s hr hs = hs

receive_loop-All :
    (P : ℕ → Type 0) (flag : ReceiveOption) (want read : ℕ) (bytes : List ℕ) (line : Line)
    (arrivals : List Arrival)
    → All P line.stream
    → Left P (receive_loop flag want read bytes line arrivals)
unfolding receive_loop
receive_loop-All P flag want read bytes line [] h =
    Left-if P (ltb read want) blocked (returned read bytes line []) (tt {0}) h
receive_loop-All P flag want read bytes line (a ∷ later) h =
    let count : ℕ = status a.outcome (want - read) line.stream in
    let rest : All P (left flag count line.stream) = left-All P flag count line.stream h in
    Left-if P (ltb read want) _ _
      (Left-if P (count == 0) _ _ rest (
        Left-if P a.still_open _ _
          (receive_loop-All P flag want (read + count) (bytes ++ take count line.stream)
            (after flag count a line) later rest)
          rest))
      h

pub receive-All :
    (P : ℕ → Type 0) (flag : ReceiveOption) (want : ℕ) (bytes : List ℕ) (line : Line)
    (arrivals : List Arrival) {n : ℕ} {bytes' : List ℕ} {line' : Line} {later : List Arrival}
    → receive flag want bytes line arrivals ≡ returned n bytes' line' later
    → All P line.stream
    → All P line'.stream
unfolding receive
receive-All P flag want bytes line arrivals e h =
    subst (Left P) e (receive_loop-All P flag want 0 bytes line arrivals h)
