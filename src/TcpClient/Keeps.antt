-- ===== src/TcpClient/Keeps.antt =====
-- Predicates of the client that the handlers of the read thread keep.
use navtechradar.Base.{ℕ, ◌≡◌, refl, subst, Bool, true, false, not, List, [], Option, none, some}
use navtechradar.Base.{◌==◌, if◌then◌else◌}
use navtechradar.Socket.{ReceiveOption, consume, Received, returned, blocked}
use navtechradar.Socket
use navtechradar.Colossus.Message.{Message, header_size}
use navtechradar.Colossus.Message
use navtechradar.TcpClient.{Client, disconnected, set_connection_state}
use navtechradar.TcpClient.Reader.{
  Run, done, waits, fault, short, ◌>>=◌, defined, outcome, receive, enqueue, is_broken, hand_over,
  handle_payload, handle_message, handle_data, resynchronise, no_address,
}
use navtechradar.TcpClient.Delivers.{done-injective}

-- Of a result with a client, that a predicate holds of the client. It says that there were rounds
-- enough, too.
pub data Keeps (P : Client → Type 0) : Run (Bool × Client) → Type 0 where
  kept : (b : Bool) (c : Client) → P c → Keeps P (done (b, c))
  kept_waits : Keeps P waits
  kept_fault : Keeps P fault

-- A predicate that receive(), a change of the connection state and a new element of the queue keep.
pub record IsKept (P : Client → Type 0) : Type 0 where
  pub by_receive :
      (flag : ReceiveOption) (want : ℕ) (bytes : List ℕ) (c c' : Client) (n : ℕ) (got : List ℕ)
      → receive flag want bytes c ≡ done (n, got, c')
      → P c
      → P c'
  pub by_disconnect : (c : Client) → P c → P (set_connection_state disconnected c)

pub Keeps-done :
    (P : Client → Type 0) {b : Bool} {c : Client} (r : Run (Bool × Client))
    → Keeps P r
    → r ≡ done (b, c)
    → P c
Keeps-done P (done r) (kept b' c' h) e = subst (λ (t : Bool × Client). P t.1) (done-injective e) h
Keeps-done P waits kept_waits e = cc
Keeps-done P fault kept_fault e = cc
Keeps-done P short k e = elim k [ ]

pub Keeps-if :
    (P : Client → Type 0) (b : Bool) (r s : Run (Bool × Client))
    → Keeps P r
    → Keeps P s
    → Keeps P (if b then r else s)
Keeps-if P true r s hr hs = hr
Keeps-if P false r s hr hs = hs

pub Keeps-defined {ℓ} :
    (P : Client → Type 0) {A : Type ℓ} (o : Option A) (f : A → Run (Bool × Client))
    → ((a : A) → Keeps P (f a))
    → Keeps P (defined o >>= f)
Keeps-defined P none f h = kept_fault
Keeps-defined P (some a) f h = h a

pub Keeps-bind :
    (P Q : Client → Type 0) (m : Run (Bool × Client)) (f : Bool × Client → Run (Bool × Client))
    → Keeps Q m
    → ((a : Bool × Client) → m ≡ done a → Keeps P (f a))
    → Keeps P (m >>= f)
Keeps-bind P Q (done a) f k h = h a refl
Keeps-bind P Q waits f k h = kept_waits
Keeps-bind P Q fault f k h = kept_fault
Keeps-bind P Q short f k h = elim k [ ]

module _ (P : Client → Type 0) where
  Keeps-outcome :
      (c : Client) (r : Received) (f : ℕ × List ℕ × Client → Run (Bool × Client))
      → ((n : ℕ) (got : List ℕ) (c' : Client)
          → outcome c r ≡ done (n, got, c')
          → Keeps P (f (n, got, c')))
      → Keeps P (outcome c r >>= f)
  Keeps-outcome c blocked f h = kept_waits
  Keeps-outcome c (returned n bytes line later) f h =
      h n bytes (record c { line = line; arrivals = later }) refl

  pub Keeps-receive_done :
      (flag : ReceiveOption) (want : ℕ) (bytes : List ℕ) (c : Client)
      (f : ℕ × List ℕ × Client → Run (Bool × Client))
      → ((n : ℕ) (got : List ℕ) (c' : Client)
          → receive flag want bytes c ≡ done (n, got, c')
          → Keeps P (f (n, got, c')))
      → Keeps P (receive flag want bytes c >>= f)
  unfolding receive
  Keeps-receive_done flag want bytes c f h =
      Keeps-outcome c (Socket.receive flag want bytes c.line c.arrivals) f h

  pub Keeps-receive :
      (k : IsKept P) (flag : ReceiveOption) (want : ℕ) (bytes : List ℕ) (c : Client)
      (f : ℕ × List ℕ × Client → Run (Bool × Client))
      → P c
      → ((n : ℕ) (got : List ℕ) (c' : Client) → P c' → Keeps P (f (n, got, c')))
      → Keeps P (receive flag want bytes c >>= f)
  Keeps-receive k flag want bytes c f b h =
      Keeps-receive_done flag want bytes c f
        λ n got c' e. h n got c' (k.by_receive flag want bytes c c' n got e b)

module _ (P : Client → Type 0) (k : IsKept P)
    (by_enqueue : (bytes : List ℕ) (c : Client) → P c → P (enqueue bytes c)) where
  hand_over-Keeps : (msg : Message) (c : Client) → P c → Keeps P (hand_over msg c)
  unfolding hand_over
  hand_over-Keeps msg c b =
      Keeps-defined P (Message.relinquish msg) _ (λ r. kept _ _ (by_enqueue r.0 c b))

  handle_payload-Keeps :
      (msg : Message) (n : ℕ) (c : Client) → P c → Keeps P (handle_payload msg n c)
  unfolding handle_payload
  handle_payload-Keeps msg n c b = Keeps-receive P k consume n [] c _ b λ m got c' b'.
      Keeps-if P (is_broken m c') _ _ (kept _ _ (k.by_disconnect c' b'))
        (Keeps-defined P (Message.append got msg) _ (λ whole. hand_over-Keeps whole c' b'))

  handle_message-Keeps : (msg : Message) (c : Client) → P c → Keeps P (handle_message msg c)
  unfolding handle_message
  handle_message-Keeps msg c b = Keeps-defined P (Message.is_valid msg) _ λ valid.
      Keeps-if P (not valid) _ _ (kept _ _ b) (
        Keeps-defined P (Message.payload_size msg) _ λ n.
          Keeps-if P (not (n == 0)) _ _ (handle_payload-Keeps msg n c b) (hand_over-Keeps msg c b))

  pub handle_data-Keeps : (c : Client) → P c → Keeps P (handle_data c)
  unfolding handle_data
  handle_data-Keeps c b = Keeps-defined P (Message.new no_address 0) _ λ msg.
      Keeps-receive P k consume header_size [] c _ b λ m got c' b'.
        Keeps-if P (is_broken m c') _ _ (kept _ _ (k.by_disconnect c' b'))
          (handle_message-Keeps (Message.replace got msg) c' b')

pub resynchronise-Keeps :
    (P : Client → Type 0) (k : IsKept P) (seen : List ℕ) (c : Client)
    → P c
    → Keeps P (resynchronise seen c)
unfolding resynchronise
resynchronise-Keeps P k seen c h =
    Keeps-receive P k consume 1 seen c _ h λ m more c' h'.
      Keeps-if P (is_broken m c') _ _ (kept _ _ (k.by_disconnect c' h')) (kept _ _ h')
