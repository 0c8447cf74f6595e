-- ===== src/TcpClient/Restart.antt =====
-- The connection state over connect(), stop() and start().
use navtechradar.Base.{
  ℕ, ◌≡◌, ◌≢◌, refl, arith, Bool, true, false, not, ◌&&◌, Option, none, some, if◌then◌else◌, List,
}
use navtechradar.ThreadedQueue.{Queue}
use navtechradar.ThreadedQueue.Drain.{stop_ends}
use navtechradar.Socket.{Socket}
use navtechradar.Socket
use navtechradar.TcpClient.{
  Client, Answers, connected, disconnected, reopened, set_running, is_running, get_connection_state,
  connect, connect_thread_round, connection_check_handler, start, stop,
}

abbrev has_descriptor : Option ℕ → Bool
has_descriptor none = false
has_descriptor (some fd) = true

-- An attempt to connect succeeds if a socket is made and the peer accepts.
abbrev pub succeeds : Answers → Bool
succeeds os = has_descriptor os.made && os.accepted

reopened-connect :
    (os : Answers) (s : Socket) → Socket.connect os.accepted (reopened os s) ≡ succeeds os
unfolding Socket.connect Socket.create
reopened-connect os s = ground arith

-- After an attempt of a running client that is not connected, it is connected and reads if the
-- attempt succeeds, and else it is disconnected and the timer will have it try again.
pub connect_lem :
    (os : Answers) (c : Client)
    → is_running c ≡ true
    → get_connection_state c ≢ connected
    → (get_connection_state (connect os c) ≡ (if succeeds os then connected else disconnected))
      × (connection_check_handler (connect os c) ≡ not (succeeds os))
      × ((connect os c).reading ≡ (if succeeds os then true else c.reading))
      × ((connect os c).queue ≡ c.queue)
unfolding connect get_connection_state connection_check_handler
connect_lem os c run ne = ground (arith, reopened-connect os c.socket)

abbrev stopped : Bool → Client → Queue (List ℕ) → Client
stopped closed c q = set_running false (record c {
  queue = q;
  timer_enabled = false;
  socket = (Socket.close closed c.socket).0;
  has_connect_thread = false;
  reading = false;
  has_read_thread = false;
})

-- A client that was connected when it was stopped counts as connected as soon as it is started
-- again, though it has neither a read thread nor is reading: the connect thread does nothing when
-- it is woken, whatever the system would answer, and the timer does not wake it.
pub restart_lem :
    (closed : Bool) (c : Client)
    → is_running c ≡ true
    → c.connection_state ≡ connected
    → (d : Client) × (stop closed c ≡ some d)
      × (get_connection_state (start d) ≡ connected)
      × ((os : Answers) → connect_thread_round os (start d) ≡ start d)
      × (connection_check_handler (start d) ≡ false)
      × ((start d).has_read_thread ≡ false)
      × ((start d).reading ≡ false)
unfolding stop start get_connection_state connection_check_handler connect_thread_round
restart_lem closed c run con =
    let (q, e) = stop_ends c.queue in
    (stopped closed c q, rw (run, stop, e), con, λ os. rw con, rw con, refl, refl)
