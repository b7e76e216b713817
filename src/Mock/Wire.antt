-- ===== src/Mock/Wire.antt =====
-- The mock as a backend: what it writes, reads and switches.
use anyserial.Base.{
  ℕ, suc, ◌-◌, ◌≤◌, ◌≡◌, refl, List, [], ◌∷◌, length, take, ◌++◌, Option, none, some, ℤ, pos,
  negsuc, length-take, take-take_within, arith, ap, sym, ◌∙◌,
}
use mathlib.Core.List.{append-nil}
use anyserial.Errors.{Exn, ok, raise}
use anyserial.Backend.Protocol.{WritesFromFront}
use anyserial.Mock.{Socket, Mock, mock_backend, write_nonblocking, send_some, sliced}

-- The documented behaviour of `send`: it takes bytes from the front, and none when it raises.
pub record SendsFromFront {S : Type 0} (io : Socket S) (sent : S → List ℕ) : Type 0 where
  pub accepted :
      (data' : List ℕ) (s : S) (n : ℕ)
      → (io.send data' s).0 ≡ ok n
      → (n ≤ length data') × (sent (io.send data' s).1 ≡ sent s ++ take n data')
  pub refused :
      (data' : List ℕ) (s : S) (e : Exn)
      → (io.send data' s).0 ≡ raise e
      → sent (io.send data' s).1 ≡ sent s

-- A slice is a front part of the bytes.
sliced_front :
    (d : List ℕ) (o : Option ℤ) (n : ℕ)
    → n ≤ length (sliced d o)
    → (n ≤ length d) × (take n (sliced d o) ≡ take n d)
unfolding sliced
sliced_front d none n h = (h, refl)
sliced_front d (some (pos m)) n h = (omega (arith, length-take m d), take-take_within n m d h)
sliced_front d (some (negsuc m)) n h =
    (omega (arith, length-take (length d - suc m) d), take-take_within n (length d - suc m) d h)

module _ {S : Type 0} (io : Socket S) (fuel : S → ℕ) (sent : S → List ℕ) where
  -- What the mock has put on its socket.
  abbrev pub mock_wire : Mock S → List ℕ
  mock_wire m = sent m.this.sock

  module _ (law : SendsFromFront io sent) where
    send_some-accepted :
        (d : List ℕ) (m : Mock S) (n : ℕ)
        → (send_some io d m).0 ≡ ok n
        → (n ≤ length d) × (mock_wire (send_some io d m).1 ≡ mock_wire m ++ take n d)
    unfolding send_some
    send_some-accepted [] m n h = ground (arith, append-nil (mock_wire m))
    send_some-accepted (x ∷ d) m n h = law.accepted (x ∷ d) m.this.sock n h

    send_some-refused :
        (d : List ℕ) (m : Mock S) (e : Exn)
        → (send_some io d m).0 ≡ raise e
        → mock_wire (send_some io d m).1 ≡ mock_wire m
    unfolding send_some
    send_some-refused [] m e h = refl
    send_some-refused (x ∷ d) m e h = law.refused (x ∷ d) m.this.sock e h

    write_accepted :
        (d : List ℕ) (m : Mock S) (n : ℕ)
        → (write_nonblocking io d m).0 ≡ ok n
        → write_nonblocking io d m ≡ send_some io (sliced d m.this.faults.short_write_max) m
    unfolding write_nonblocking
    write_accepted d m n h = ground arith

    write_refused :
        (d : List ℕ) (m : Mock S) (e : Exn)
        → (write_nonblocking io d m).0 ≡ raise e
        → mock_wire (write_nonblocking io d m).1 ≡ mock_wire m
    unfolding write_nonblocking
    write_refused d m e h =
        ground (arith, send_some-refused (sliced d m.this.faults.short_write_max) m e)

  -- The mock over a socket that sends from the front of what it is given does so too, whatever
  -- its faults and its cap on a write are: it accepts a front part of the bytes and says how
  -- long it is, and a write that it refuses, or that the socket refuses, puts nothing on the wire.
  pub mock_backend-WritesFromFront :
      SendsFromFront io sent → WritesFromFront (mock_backend io fuel) mock_wire
  mock_backend-WritesFromFront law = record {
    accepted = λ d m n h.
        let same = write_accepted law d m n h in
        let view = sliced d m.this.faults.short_write_max in
        let (fits, went) = send_some-accepted law view m n (rw (sym same) h) in
        let (within, front) = sliced_front d m.this.faults.short_write_max n fits in
        (within, rw same (went ∙ ap (λ (l : List ℕ). mock_wire m ++ l) front));
    refused = λ d m e h. write_refused law d m e h;
  }
