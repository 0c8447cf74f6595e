-- ===== src/TcpClient/Invariant.antt =====
-- What the read thread puts in the queue over its whole life.
use navtechradar.Base.{
  ℕ, zero, suc, ◌<◌, ◌≡◌, refl, sym, ap, subst, arith, not, ◌||◌, ◌&&◌, List, [],
}
use navtechradar.Base.{◌==◌, length, All, Bool-cases, inl, inr}
use navtechradar.Base.Bytes.{IsByte}
use navtechradar.ThreadedQueue.{Queue}
use navtechradar.ThreadedQueue
use navtechradar.Socket.{ReceiveOption, consume, peek, Received, returned, blocked}
use navtechradar.Socket
use navtechradar.Socket.Remaining.{receive-All}
use navtechradar.Colossus.Message.{largest_payload, signature_ne}
use navtechradar.Colossus.Message.Wire.{wire}
use navtechradar.TcpClient.{Client, is_running, disconnected, set_connection_state, ConnectionState}
use navtechradar.TcpClient.Reader.{
  done, outcome, receive, is_broken, handle_data, read_message, read_round, read_thread,
}
use navtechradar.TcpClient.Keeps.{
  Keeps, kept, IsKept, Keeps-done, Keeps-if, Keeps-defined, Keeps-bind, Keeps-receive,
  handle_data-Keeps, resynchronise-Keeps,
}
use navtechradar.TcpClient.Delivers.{
  Takes, delivered, nothing, handle_data-Takes, >>=-done, done-injective, receive-queue,
  set_connection_state-queue,
}

abbrev pub IsByteStream : Client → Type 0
IsByteStream c = All IsByte c.line.stream

outcome-IsByteStream :
    (flag : ReceiveOption) (want : ℕ) (bytes : List ℕ) (c c' : Client) (n : ℕ) (got : List ℕ)
    (r : Received)
    → Socket.receive flag want bytes c.line c.arrivals ≡ r
    → outcome c r ≡ done (n, got, c')
    → IsByteStream c
    → IsByteStream c'
outcome-IsByteStream flag want bytes c c' n got blocked e h b = cc
outcome-IsByteStream flag want bytes c c' n got (returned m more line later) e h b =
    subst (λ (t : ℕ × List ℕ × Client). IsByteStream t.2) (done-injective h)
      (receive-All IsByte flag want bytes c.line c.arrivals e b)

set_connection_state-line :
    (s : ConnectionState) (c : Client) → (set_connection_state s c).line ≡ c.line
unfolding set_connection_state
set_connection_state-line s c = ground arith

IsByteStream-IsKept : IsKept IsByteStream
unfolding receive
IsByteStream-IsKept = record {
  by_receive =
      λ flag want bytes c c' n got e b. outcome-IsByteStream flag want bytes c c' n got _ refl e b;
  by_disconnect = λ c b. rw (set_connection_state-line disconnected c) b;
}

handle_data-Keeps_bytes : (c : Client) → IsByteStream c → Keeps IsByteStream (handle_data c)
handle_data-Keeps_bytes = handle_data-Keeps IsByteStream IsByteStream-IsKept (λ bytes c b. b)

-- A queue to which only whole messages of the protocol were added, in the order in which they came.
pub data Served (q : Queue (List ℕ)) : Queue (List ℕ) → Type 0 where
  unchanged : Served q q
  one_more :
      (r s : Queue (List ℕ)) (id : ℕ) (p : List ℕ)
      → Served q r
      → id < 256
      → length p < largest_payload
      → s ≡ ThreadedQueue.enqueue (wire id p) r
      → Served q s

module _ (q : Queue (List ℕ)) where
  abbrev Serves : Client → Type 0
  Serves c = IsByteStream c × Served q c.queue

  Serves-IsKept : IsKept Serves
  Serves-IsKept = record {
    by_receive = λ flag want bytes c c' n got e h. (
      IsByteStream-IsKept.by_receive flag want bytes c c' n got e h.0,
      subst (Served q) (sym (receive-queue flag want bytes c c' n got e)) h.1,
    );
    by_disconnect = λ c h. (
      IsByteStream-IsKept.by_disconnect c h.0,
      subst (Served q) (sym (set_connection_state-queue disconnected c)) h.1,
    );
  }

  Takes-Served : (c c' : Client) → Takes c c' → Served q c.queue → Served q c'.queue
  Takes-Served c c' (delivered id p hid hp hs e) h = one_more c.queue c'.queue id p h hid hp e
  Takes-Served c c' (nothing e) h = subst (Served q) (sym e) h

  read_message-Keeps : (c : Client) → Serves c → Keeps Serves (read_message c)
  unfolding read_message
  read_message-Keeps c h =
      Keeps-bind Serves IsByteStream (handle_data c) _ (handle_data-Keeps_bytes c h.0) λ r e.
        let after : Serves r.1 = (
          Keeps-done IsByteStream (handle_data c) (handle_data-Keeps_bytes c h.0) e,
          Takes-Served c r.1 (handle_data-Takes c r.1 r.0 h.0 e) h.1,
        ) in
        Keeps-if Serves (not r.0 || not r.1.reading || not (is_running r.1)) _ _
          (kept _ _ (Serves-IsKept.by_disconnect r.1 after)) (kept _ _ after)

  read_round-Keeps : (c : Client) → Serves c → Keeps Serves (read_round c)
  unfolding read_round
  read_round-Keeps c h = Keeps-receive Serves Serves-IsKept peek 16 [] c _ h λ n seen c1 h1.
      Keeps-if Serves (n == 0) _ _ (kept _ _ h1) (
        Keeps-if Serves (is_broken n c1) _ _ (kept _ _ (Serves-IsKept.by_disconnect c1 h1)) (
          Keeps-defined Serves (signature_ne seen) _ λ differs.
            Keeps-if Serves differs _ _ (resynchronise-Keeps Serves Serves-IsKept seen c1 h1)
              (read_message-Keeps c1 h1)))

  -- Whatever the peer sends and however it arrives, the read thread adds to the queue only whole
  -- messages of the protocol with payloads below the limit.
  pub read_thread-Served :
      (fuel : ℕ) (c c' : Client)
      → IsByteStream c
      → Served q c.queue
      → read_thread fuel c ≡ done c'
      → Served q c'.queue
  unfolding read_thread
  read_thread-Served zero c c' b h e = cc
  read_thread-Served (suc fuel) c c' b h e = elim (Bool-cases (c.reading && is_running c)) [
    | inr over ↦ subst (Served q) (ap (λ (t : Client). t.queue) (done-injective (rw over at e))) h
    | inl on ↦
        let (r, e1, e2) = >>=-done (read_round c) _ (rw on at e) in
        let after : Serves r.1 = Keeps-done Serves (read_round c) (read_round-Keeps c (b, h)) e1 in
        elim (Bool-cases r.0) [
          | inl again ↦ read_thread-Served fuel r.1 c' after.0 after.1 (rw again at e2)
          | inr ended ↦
              subst (Served q) (ap (λ (t : Client). t.queue) (done-injective (rw ended at e2)))
                after.1
        ]
  ]
