-- ===== src/Scenarios/Memory.antt =====
-- A socket held in memory, which sends two bytes at a time, and a pair of mocks on it.
use anyserial.Base.{
  ℕ, suc, ◌≤◌, ◌≡◌, refl, true, false, Bool, some, List, [], ◌∷◌, ◌++◌, length, take, drop, pos,
  length-take, arith, inr,
}
use anyserial.Errors.{is_blocking, Errno, Result, ok, raise}
use anyserial.Config.{default_config}
use anyserial.Backend.Protocol.{SyncBackend}
use anyserial.Stream.Port.{Port}
use anyserial.Stream.Receive.Reading.{ReadsWithin}
use anyserial.Stream.Send.Progress.{TakesSome}
use anyserial.Stream.Send.Break.{SwitchesBreak}
use anyserial.Mock.{
  Socket, Mock, MockState, mock_backend, mock_error, read_nonblocking, set_break, new_state,
  no_faults, write_nonblocking, send_some, sliced,
}
use anyserial.Mock.Wire.{SendsFromFront}
use anyserial.Mock.Reset.{ReceivesQueued}

pub record Memory : Type 0 where
  pub incoming : List ℕ
  pub outgoing : List ℕ

abbrev recv_from : ℕ → List ℕ → Memory → Result (List ℕ) × Memory
recv_from n [] s = (raise (mock_error Errno.eagain "would block"), s)
recv_from n (x ∷ xs) s = (ok (take n (x ∷ xs)), record s { incoming = drop n (x ∷ xs) })

abbrev peek_from : ℕ → List ℕ → Memory → Result (List ℕ) × Memory
peek_from n [] s = (raise (mock_error Errno.eagain "would block"), s)
peek_from n (x ∷ xs) s = (ok (take n (x ∷ xs)), s)

abbrev pub memory_socket : Socket Memory
memory_socket = record {
  fileno = λ s. pos 7;
  close = λ s. s;
  recv = λ n s. recv_from n s.incoming s;
  peek = λ n s. peek_from n s.incoming s;
  send = λ d s. (ok (length (take 2 d)), record s { outgoing = s.outgoing ++ take 2 d });
}

abbrev pub outgoing : Memory → List ℕ
outgoing s = s.outgoing

abbrev pub incoming : Memory → List ℕ
incoming s = s.incoming

abbrev pub enough : Memory → ℕ
enough s = suc (length s.incoming)

abbrev front_of : List ℕ → List ℕ
front_of d = take (length (take 2 d)) d

two_taken : (d : List ℕ) → take 2 d ≡ front_of d
two_taken [] = refl
two_taken (x ∷ []) = refl
two_taken (x ∷ y ∷ d) = refl

two_within : (d : List ℕ) → length (take 2 d) ≤ length d
two_within d = omega (arith, length-take 2 d)

pub memory-SendsFromFront : SendsFromFront memory_socket outgoing
memory-SendsFromFront = record {
  accepted = λ d s n h. ground (arith, two_taken d, two_within d);
  refused = λ d s e h. ground arith;
}

pub memory-ReceivesQueued : ReceivesQueued memory_socket incoming
unfolding is_blocking
memory-ReceivesQueued = record {
  some_queued = λ n x xs s h. rw h (n, take n xs, x, refl, refl);
  none_queued = λ n s h. rw h (refl, inr (mock_error Errno.eagain "would block", refl, refl));
}

abbrev pub memory_backend : SyncBackend (Mock Memory)
memory_backend = mock_backend memory_socket enough

recv_within :
    (n : ℕ) (queued : List ℕ) (s : Memory) (xs : List ℕ)
    → (recv_from n queued s).0 ≡ ok xs
    → length xs ≤ n
recv_within n [] s xs h = cc
recv_within n (x ∷ queued) s xs h = ground (arith, length-take n (x ∷ queued))

pub memory-ReadsWithin : ReadsWithin memory_backend
unfolding read_nonblocking
memory-ReadsWithin = record {
  fits = λ n m xs h. ground (arith, recv_within n m.this.sock.incoming m.this.sock xs);
}

abbrev pub break_line : Mock Memory → Bool
break_line m = m.this.break_asserted

pub memory-SwitchesBreak : SwitchesBreak memory_backend break_line
unfolding set_break
memory-SwitchesBreak = record { switched = λ on m u h. refl }

-- The mock without a fault plan, of which every write takes something
abbrev pub Unhindered : Mock Memory → Type 0
Unhindered m = m.this.faults ≡ no_faults

pub memory-TakesSome : TakesSome memory_backend Unhindered
unfolding write_nonblocking send_some sliced
memory-TakesSome = record {
  some_of = λ x xs m h. rw h (length (take 1 xs), refl);
  still = λ x xs m h. simp h;
}

-- A mock with three bytes to read, and a port on it.
abbrev pub near_end : MockState Memory
near_end = new_state (record { incoming = 1 ∷ 2 ∷ 3 ∷ []; outgoing = [] }) "/dev/mockA"

abbrev pub far_end : MockState Memory
far_end = new_state (record { incoming = []; outgoing = [] }) "/dev/mockB"

abbrev pub mock : Mock Memory
mock = record { this = near_end; peer = some far_end }

abbrev pub port : Port (Mock Memory)
port = record {
  backend = mock;
  config = default_config;
  closed = false;
  receive_guard = false;
  send_guard = false;
}

abbrev pub closed_port : Port (Mock Memory)
closed_port = record port { closed = true }
