-- ===== src/TcpClient/Fuel.antt =====
-- The rounds that the read thread needs.
use navtechradar.Base.{
  ℕ, zero, suc, ◌<◌, ◌≡◌, ◌≢◌, refl, subst, arith, Bool, true, false, not, ◌||◌, ◌&&◌, List, [],
}
use navtechradar.Base.{◌==◌, length, Bool-cases, inl, inr}
use navtechradar.Socket.{ReceiveOption, peek, Received, returned, blocked}
use navtechradar.Socket
use navtechradar.Socket.Progress.{receive-takes_some, receive-takes_one}
use navtechradar.Colossus.Message.{signature_ne}
use navtechradar.TcpClient.{Client, is_running, disconnected, set_connection_state, ConnectionState}
use navtechradar.TcpClient.Reader.{
  Run, done, waits, fault, short, ◌>>=◌, outcome, receive, is_broken, handle_data, read_message,
  read_round, read_thread, exited,
}
use navtechradar.TcpClient.Keeps.{
  Keeps, kept, kept_waits, kept_fault, IsKept, Keeps-done, Keeps-if, Keeps-defined, Keeps-bind,
  Keeps-receive_done, handle_data-Keeps, resynchronise-Keeps,
}
use navtechradar.TcpClient.Delivers.{done-injective}

-- Fewer than `m` answers of recv are left.
abbrev Fewer : ℕ → Client → Type 0
Fewer m c = length c.arrivals < m

outcome-Fewer :
    (flag : ReceiveOption) (want m : ℕ) (bytes : List ℕ) (c c' : Client) (n : ℕ) (got : List ℕ)
    (r : Received)
    → Socket.receive flag want bytes c.line c.arrivals ≡ r
    → outcome c r ≡ done (n, got, c')
    → Fewer m c
    → Fewer m c'
outcome-Fewer flag want m bytes c c' n got blocked e h b = cc
outcome-Fewer flag want m bytes c c' n got (returned k more line later) e h b =
    subst (λ (t : ℕ × List ℕ × Client). Fewer m t.2) (done-injective h)
      (omega (arith, receive-takes_some flag want bytes c.line c.arrivals e))

set_connection_state-arrivals :
    (s : ConnectionState) (c : Client) → (set_connection_state s c).arrivals ≡ c.arrivals
unfolding set_connection_state
set_connection_state-arrivals s c = ground arith

Fewer-IsKept : (m : ℕ) → IsKept (Fewer m)
unfolding receive
Fewer-IsKept m = record {
  by_receive =
      λ flag want bytes c c' n got e b. outcome-Fewer flag want m bytes c c' n got _ refl e b;
  by_disconnect = λ c b. rw (set_connection_state-arrivals disconnected c) b;
}

outcome-one_less :
    (flag : ReceiveOption) (want m : ℕ) (bytes : List ℕ) (c c' : Client) (n : ℕ) (got : List ℕ)
    (r : Received)
    → 0 < want
    → Socket.receive flag want bytes c.line c.arrivals ≡ r
    → outcome c r ≡ done (n, got, c')
    → Fewer (suc m) c
    → Fewer m c'
outcome-one_less flag want m bytes c c' n got blocked h0 e h b = cc
outcome-one_less flag want m bytes c c' n got (returned k more line later) h0 e h b =
    subst (λ (t : ℕ × List ℕ × Client). Fewer m t.2) (done-injective h)
      (receive-takes_one flag want m bytes c.line c.arrivals h0 b e)

receive-one_less :
    (flag : ReceiveOption) (want m : ℕ) (bytes : List ℕ) (c c' : Client) (n : ℕ) (got : List ℕ)
    → 0 < want
    → receive flag want bytes c ≡ done (n, got, c')
    → Fewer (suc m) c
    → Fewer m c'
unfolding receive
receive-one_less flag want m bytes c c' n got h0 e b =
    outcome-one_less flag want m bytes c c' n got _ h0 refl e b

data_Fewer : (m : ℕ) (c : Client) → Fewer m c → Keeps (Fewer m) (handle_data c)
data_Fewer m = handle_data-Keeps (Fewer m) (Fewer-IsKept m) (λ bytes c b. b)

message_Fewer : (m : ℕ) (c : Client) → Fewer m c → Keeps (Fewer m) (read_message c)
unfolding read_message
message_Fewer m c b = Keeps-bind (Fewer m) (Fewer m) (handle_data c) _ (data_Fewer m c b) λ r e.
    let after : Fewer m r.1 = Keeps-done (Fewer m) (handle_data c) (data_Fewer m c b) e in
    Keeps-if (Fewer m) (not r.0 || not r.1.reading || not (is_running r.1)) _ _
      (kept _ _ ((Fewer-IsKept m).by_disconnect r.1 after)) (kept _ _ after)

round_Fewer : (m : ℕ) (c : Client) → Fewer (suc m) c → Keeps (Fewer m) (read_round c)
unfolding read_round
round_Fewer m c b = Keeps-receive_done (Fewer m) peek 16 [] c _ λ n seen c1 e.
    let after : Fewer m c1 = receive-one_less peek 16 m [] c c1 n seen (omega arith) e b in
    Keeps-if (Fewer m) (n == 0) _ _ (kept _ _ after) (
      Keeps-if (Fewer m) (is_broken n c1) _ _ (kept _ _ ((Fewer-IsKept m).by_disconnect c1 after)) (
        Keeps-defined (Fewer m) (signature_ne seen) _ λ differs.
          Keeps-if (Fewer m) differs _ _
            (resynchronise-Keeps (Fewer m) (Fewer-IsKept m) seen c1 after)
            (message_Fewer m c1 after)))

>>=-not_short :
    (m : ℕ) (r : Run (Bool × Client)) (f : Bool × Client → Run Client)
    → Keeps (Fewer m) r
    → ((b : Bool) (c : Client) → Fewer m c → f (b, c) ≢ short)
    → r >>= f ≢ short
>>=-not_short m (done r) f (kept b c h) k e = k b c h e
>>=-not_short m waits f kept_waits k e = cc
>>=-not_short m fault f kept_fault k e = cc
>>=-not_short m short f h k e = elim h [ ]

-- A run of the read thread that has a round for each answer of recv and one more is never cut off:
-- the thread ends, waits in recv, or does something undefined.
pub read_thread-enough :
    (fuel : ℕ) (c : Client) → length c.arrivals < fuel → read_thread fuel c ≢ short
unfolding read_thread
read_thread-enough zero c h e = omega arith
read_thread-enough (suc fuel) c h e = elim (Bool-cases (c.reading && is_running c)) [
  | inr over ↦ cc (rw over at e)
  | inl on ↦
      >>=-not_short fuel (read_round c) _ (round_Fewer fuel c h)
        (λ b c' h'.
          elim b as (λ b. elim b [ true ↦ read_thread fuel c' | false ↦ exited c' ] ≢ short) [
            | true ↦ read_thread-enough fuel c' h'
            | false ↦ λ e'. cc
          ])
        (rw on at e)
]
