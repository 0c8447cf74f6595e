-- ===== src/Socket/Progress.antt =====
-- How many calls of recv a receive() takes.
use navtechradar.Base.{
  ℕ, suc, ◌+◌, ◌-◌, ◌<◌, ◌≤◌, ◌≡◌, subst, arith, Bool, true, false, List, [], ◌∷◌, ◌++◌,
}
use navtechradar.Base.{length, take, ltb, lt→ltb, ◌==◌, if◌then◌else◌}
use navtechradar.Socket.{
  Arrival, Line, Received, returned, blocked, receive_loop, receive, status, after, ReceiveOption,
}

-- At most `n` answers of recv are left.
abbrev LeavesAtMost : ℕ → Received → Type 0
LeavesAtMost n (returned count bytes line later) = length later ≤ n
LeavesAtMost n blocked = Unit {0}

LeavesAtMost-if :
    (n : ℕ) (b : Bool) (r s : Received)
    → LeavesAtMost n r
    → LeavesAtMost n s
    → LeavesAtMost n (if b then r else s)
LeavesAtMost-if n true r s hr hs = hr
LeavesAtMost-if n false r s hr hs = hs

LeavesAtMost-weaken : (n m : ℕ) (r : Received) → n ≤ m → LeavesAtMost n r → LeavesAtMost m r
LeavesAtMost-weaken n m (returned count bytes line later) le h = omega arith
LeavesAtMost-weaken n m blocked le h = tt {0}

LeavesAtMost-tests :
    (flag : ReceiveOption) (want read : ℕ) (bytes : List ℕ) (line : Line) (a : Arrival)
    (later : List Arrival) (rest : Received)
    → LeavesAtMost (length later) rest
    → (bytes' : List ℕ) (line' : Line) (count : ℕ)
    → LeavesAtMost (length later) (
        if count == 0
        then returned 0 bytes line' later
        else if a.still_open
        then rest
        else returned 0 bytes' line' later)
LeavesAtMost-tests flag want read bytes line a later rest h bytes' line' count =
    LeavesAtMost-if _ (count == 0) _ _ (omega arith)
      (LeavesAtMost-if _ a.still_open _ _ h (omega arith))

receive_loop-LeavesAtMost :
    (flag : ReceiveOption) (want read : ℕ) (bytes : List ℕ) (line : Line) (arrivals : List Arrival)
    → LeavesAtMost (length arrivals) (receive_loop flag want read bytes line arrivals)
unfolding receive_loop
receive_loop-LeavesAtMost flag want read bytes line [] =
    LeavesAtMost-if 0 (ltb read want) blocked (returned read bytes line []) (tt {0}) (omega arith)
receive_loop-LeavesAtMost flag want read bytes line (a ∷ later) =
    let count : ℕ = status a.outcome (want - read) line.stream in
    let rest =
      receive_loop-LeavesAtMost flag want (read + count) (bytes ++ take count line.stream)
        (after flag count a line) later in
    LeavesAtMost-if _ (ltb read want) _ _
      (LeavesAtMost-weaken (length later) _ _ (omega arith) (
        LeavesAtMost-tests flag want read bytes line a later _ rest _ (after flag count a line)
          count))
      (omega arith)

-- A receive() never takes back an answer.
pub receive-takes_some :
    (flag : ReceiveOption) (want : ℕ) (bytes : List ℕ) (line : Line) (arrivals : List Arrival)
    {n : ℕ} {bytes' : List ℕ} {line' : Line} {later : List Arrival}
    → receive flag want bytes line arrivals ≡ returned n bytes' line' later
    → length later ≤ length arrivals
unfolding receive
receive-takes_some flag want bytes line arrivals e =
    subst (LeavesAtMost (length arrivals)) e
      (receive_loop-LeavesAtMost flag want 0 bytes line arrivals)

-- Fewer than `n` answers of recv are left.
abbrev LeavesFewer : ℕ → Received → Type 0
LeavesFewer n (returned count bytes line later) = length later < n
LeavesFewer n blocked = Unit {0}

LeavesFewer-weaken : (n m : ℕ) (r : Received) → n < m → LeavesAtMost n r → LeavesFewer m r
LeavesFewer-weaken n m (returned count bytes line later) lt h = omega arith
LeavesFewer-weaken n m blocked lt h = tt {0}

receive_loop-first :
    (flag : ReceiveOption) (want read m : ℕ) (bytes : List ℕ) (line : Line)
    (arrivals : List Arrival)
    → read < want
    → length arrivals < suc m
    → LeavesFewer m (receive_loop flag want read bytes line arrivals)
unfolding receive_loop
receive_loop-first flag want read m bytes line [] h le = rw (lt→ltb read want h) (tt {0})
receive_loop-first flag want read m bytes line (a ∷ later) h le =
    let count : ℕ = status a.outcome (want - read) line.stream in
    let rest =
      receive_loop-LeavesAtMost flag want (read + count) (bytes ++ take count line.stream)
        (after flag count a line) later in
    LeavesFewer-weaken (length later) m _ (omega arith) (
      rw (lt→ltb read want h) (
        LeavesAtMost-tests flag want read bytes line a later _ rest _ (after flag count a line)
          count))

-- A receive() that asks for a byte at least and returns has called recv.
pub receive-takes_one :
    (flag : ReceiveOption) (want m : ℕ) (bytes : List ℕ) (line : Line) (arrivals : List Arrival)
    {n : ℕ} {bytes' : List ℕ} {line' : Line} {later : List Arrival}
    → 0 < want
    → length arrivals < suc m
    → receive flag want bytes line arrivals ≡ returned n bytes' line' later
    → length later < m
unfolding receive receive_loop
receive-takes_one flag want m bytes line arrivals h le e =
    subst (LeavesFewer m) e (receive_loop-first flag want 0 m bytes line arrivals h le)
