-- ===== src/Mock.antt =====
-- src/anyserial/_mock/backend.py: the in-memory backend and its fault plan.
-- The socket is a parameter: Python's `socket`, with the calls that the backend makes of it.
pub mod Wire
pub mod Faults
pub mod Reset
use anyserial.Base.{
  ℕ, zero, suc, ◌-◌, ◌==◌, ltb, length, take, Bool, true, false, not, Option, none, some, String,
  List, [], ◌∷◌, ℤ, pos, negsuc, if◌then◌else◌,
}
use anyserial.Types.{ModemLines}
use anyserial.Errors.{Errno, Message, Exn, Result, ok, raise, is_blocking, is_os_error, or_path}
use anyserial.Config.{SerialConfig}
use anyserial.Backend.Protocol.{SyncBackend, Call}

pub record Socket (S : Type 0) : Type 0 where
  pub fileno : S → ℤ
  pub close : S → S
  pub recv : ℕ → Call S (List ℕ)
  -- `recv` with MSG_PEEK
  pub peek : ℕ → Call S (List ℕ)
  pub send : List ℕ → Call S ℕ

-- A counter of 0 is an inactive fault.
pub record FaultPlan : Type 0 where
  pub eagain_reads : ℕ
  pub eagain_writes : ℕ
  pub eintr_reads : ℕ
  pub eintr_writes : ℕ
  pub short_write_max : Option ℤ
  pub disconnected : Bool
  pub raise_eio_on_read : Bool
  pub parity_errors : ℕ

abbrev pub no_faults : FaultPlan
no_faults = record {
  eagain_reads = 0;
  eagain_writes = 0;
  eintr_reads = 0;
  eintr_writes = 0;
  short_write_max = none;
  disconnected = false;
  raise_eio_on_read = false;
  parity_errors = 0;
}

-- `_MockState`, less the reference to the peer.
pub record MockState (S : Type 0) : Type 0 where
  pub sock : S
  pub path : String
  pub is_open : Bool
  pub config : Option SerialConfig
  pub rts : Bool
  pub dtr : Bool
  pub faults : FaultPlan
  pub break_asserted : Bool

-- The backend whose methods are called, and the peer that it shares with the rest of the program.
pub record Mock (S : Type 0) : Type 0 where
  pub this : MockState S
  pub peer : Option (MockState S)

-- An injected error.
abbrev pub mock_error : Errno → String → Exn
mock_error err msg =
    Exn.os_error (record { errno = some err; strerror = some (Message.text msg); filename = none })

-- `data[: m]`: a negative bound counts from the end.
unfoldable pub sliced : List ℕ → Option ℤ → List ℕ
sliced data' none = data'
sliced data' (some (pos m)) = take m data'
sliced data' (some (negsuc m)) = take (length data' - suc m) data'

-- `path or self._state.path`
abbrev pub path_or : String → String → String
path_or String.[] old = old
path_or (String.◌∷◌ c s) old = String.◌∷◌ c s

abbrev pub or_old : Option Bool → Bool → Bool
or_old none old = old
or_old (some b) old = b

-- `sock.fileno() == -1`
abbrev is_minus_one : ℤ → Bool
is_minus_one (negsuc zero) = true
is_minus_one _ = false

module _ {S : Type 0} where
  -- What every method does with the state of its own end.
  abbrev pub at : Mock S → MockState S → Mock S
  at m s = record m { this = s }

  abbrev pub with_faults : Mock S → FaultPlan → Mock S
  with_faults m f = at m (record m.this { faults = f })

  abbrev pub new_state : S → String → MockState S
  new_state sock path = record {
    sock = sock;
    path = path;
    is_open = false;
    config = none;
    rts = false;
    dtr = false;
    faults = no_faults;
    break_asserted = false;
  }

  -- `pair`, on the two sockets of `socketpair()`, seen from its first backend.
  unfoldable pub pair : S → S → String → String → Mock S
  pair a b path_a path_b = record { this = new_state a path_a; peer = some (new_state b path_b) }

  -- The same two states, seen from the peer.
  unfoldable pub other_end : Mock S → Option (Mock S)
  other_end m = elim m.peer [
    | none ↦ none
    | some s ↦ some (record { this = s; peer = some m.this })
  ]

  unfoldable pub open_port : String → SerialConfig → Call (Mock S) (Unit {0})
  open_port path c m = if m.this.is_open then (raise Exn.runtime_error, m) else (
    ok tt,
    at m (record m.this { path = path_or path m.this.path; config = some c; is_open = true }),
  )

  unfoldable pub configure : SerialConfig → Call (Mock S) (Unit {0})
  configure c m = (ok tt, at m (record m.this { config = some c }))

  unfoldable pub set_break : Bool → Call (Mock S) (Unit {0})
  set_break on m = (ok tt, at m (record m.this { break_asserted = on }))

  unfoldable pub modem_lines_of : Option (MockState S) → ModemLines
  modem_lines_of none = record { cts = false; dsr = false; ri = false; cd = false }
  modem_lines_of (some peer) = record { cts = peer.rts; dsr = peer.dtr; ri = false; cd = peer.dtr }

  unfoldable pub modem_lines : Call (Mock S) ModemLines
  unfolding modem_lines_of
  modem_lines m = (ok (modem_lines_of m.peer), m)

  unfoldable pub set_control_lines : Option Bool → Option Bool → Call (Mock S) (Unit {0})
  set_control_lines rts dtr m =
      (ok tt, at m (record m.this { rts = or_old rts m.this.rts; dtr = or_old dtr m.this.dtr }))

  -- What succeeds and does nothing: `reset_output_buffer` and `tcdrain_blocking`.
  unfoldable pub no_op : Call (Mock S) (Unit {0})
  no_op m = (ok tt, m)

  unfoldable pub output_waiting : Call (Mock S) ℕ
  output_waiting m = (ok 0, m)

module _ {S : Type 0} where
  -- After one `recv` of `reset_input_buffer`, with what the rest of the loop does.
  unfoldable pub after_recv :
      Result (List ℕ) → S → Option (Result (Unit {0}) × S) → Option (Result (Unit {0}) × S)
  after_recv (ok []) t rest = some (ok tt, t)
  after_recv (ok (x ∷ xs)) t rest = rest
  after_recv (raise e) t rest = if is_blocking e then some (ok tt, t) else some (raise e, t)

  unfoldable pub after_reset : Mock S → Option (Result (Unit {0}) × S) → Result (Unit {0}) × Mock S
  after_reset m none = (raise Exn.runtime_error, m)
  after_reset m (some (r, t)) = (r, at m (record m.this { sock = t }))

module _ {S : Type 0} (io : Socket S) where
  unfoldable pub close : Call (Mock S) (Unit {0})
  close m =
      let s = record m.this { is_open = false } in
      if is_minus_one (io.fileno s.sock)
      then (ok tt, at m s)
      else (ok tt, at m (record s { sock = io.close s.sock }))

  -- A call of the socket.
  abbrev pub on_sock : {A : Type 0} → Call S A → Call (Mock S) A
  on_sock f m = let (r, s) = f m.this.sock in (r, at m (record m.this { sock = s }))

  unfoldable pub read_nonblocking : ℕ → Call (Mock S) (List ℕ)
  read_nonblocking n m =
      let f = m.this.faults in
      if f.raise_eio_on_read
      then (
        raise (mock_error Errno.eio "mock: injected EIO on read"),
        with_faults m (record f { raise_eio_on_read = false }),
      )
      else if ltb 0 f.parity_errors
      then (
        raise (mock_error Errno.eio "mock: parity error"),
        with_faults m (record f { parity_errors = f.parity_errors - 1 }),
      )
      else if f.disconnected
      then (ok [], m)
      else if ltb 0 f.eintr_reads
      then (
        raise (mock_error Errno.eintr "mock: injected EINTR"),
        with_faults m (record f { eintr_reads = f.eintr_reads - 1 }),
      )
      else if ltb 0 f.eagain_reads
      then (
        raise (mock_error Errno.eagain "mock: injected EAGAIN"),
        with_faults m (record f { eagain_reads = f.eagain_reads - 1 }),
      )
      else on_sock (io.recv n) m

  -- The write, after the faults.
  unfoldable pub send_some : List ℕ → Call (Mock S) ℕ
  send_some [] m = (ok 0, m)
  send_some (x ∷ view) m = on_sock (io.send (x ∷ view)) m

  unfoldable pub write_nonblocking : List ℕ → Call (Mock S) ℕ
  unfolding sliced send_some
  write_nonblocking data' m =
      let f = m.this.faults in
      if f.disconnected
      then (raise (mock_error Errno.epipe "mock: disconnected"), m)
      else if ltb 0 f.eintr_writes
      then (
        raise (mock_error Errno.eintr "mock: injected EINTR"),
        with_faults m (record f { eintr_writes = f.eintr_writes - 1 }),
      )
      else if ltb 0 f.eagain_writes
      then (
        raise (mock_error Errno.eagain "mock: injected EAGAIN"),
        with_faults m (record f { eagain_writes = f.eagain_writes - 1 }),
      )
      else send_some (sliced data' f.short_write_max) m

  -- The loop of `reset_input_buffer`, on fuel: none of it left stands for a loop that still runs.
  unfoldable pub reset_loop : ℕ → S → Option (Result (Unit {0}) × S)
  unfolding after_recv
  reset_loop zero s = none
  reset_loop (suc fuel) s =
      let (r, t) = io.recv 4096 s in let rest = reset_loop fuel t in after_recv r t rest

  -- `except BlockingIOError: return 0`
  unfoldable pub waiting_of : Result (List ℕ) → Result ℕ
  waiting_of (ok xs) = ok (length xs)
  waiting_of (raise e) = if is_blocking e then ok 0 else raise e

  unfoldable pub input_waiting : Call (Mock S) ℕ
  unfolding waiting_of
  input_waiting m =
      let (r, t) = io.peek 65536 m.this.sock in (waiting_of r, at m (record m.this { sock = t }))

  module _ (fuel : S → ℕ) where
    -- A loop that is still running when the fuel is used up has no result; the socket's bound on
    -- what waits gives enough (`fuel`).
    unfoldable pub reset_input_buffer : Call (Mock S) (Unit {0})
    unfolding reset_loop after_reset
    reset_input_buffer m = after_reset m (reset_loop (fuel m.this.sock) m.this.sock)

    -- The mock as a backend of a port.
    abbrev pub mock_backend : SyncBackend (Mock S)
    mock_backend = record {
      path = λ m. m.this.path;
      is_open = λ m. m.this.is_open;
      open_port = open_port;
      close = close;
      fileno = λ m. io.fileno m.this.sock;
      read_nonblocking = read_nonblocking;
      write_nonblocking = write_nonblocking;
      configure = configure;
      reset_input_buffer = reset_input_buffer;
      reset_output_buffer = no_op;
      set_break = set_break;
      tcdrain_blocking = no_op;
      modem_lines = modem_lines;
      set_control_lines = set_control_lines;
      input_waiting = input_waiting;
      output_waiting = output_waiting;
    }
