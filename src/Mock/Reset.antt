-- ===== src/Mock/Reset.antt =====
-- The mock's control plane: emptying the input, and the lines that the two ends share.
use anyserial.Base.{
  ℕ, zero, suc, ◌<◌, ◌≡◌, refl, ◌⊎◌, inl, inr, true, false, Bool, Option, none, some, List, [], ◌∷◌,
  length, drop, length-drop, arith,
}
use anyserial.Types.{ModemLines}
use anyserial.Errors.{Exn, Result, ok, raise, is_blocking}
use anyserial.Mock.{
  Socket, Mock, MockState, reset_loop, after_recv, after_reset, reset_input_buffer,
  set_control_lines, modem_lines, modem_lines_of, other_end, or_old,
}

-- The documented behaviour of `recv` on a non-blocking socket with those bytes queued: it takes at
-- least one of them, from the front; where there is none it says so by an empty read (the peer has
-- closed) or by blocking, and leaves the queue alone.
pub record ReceivesQueued {S : Type 0} (io : Socket S) (queued : S → List ℕ) : Type 0 where
  pub some_queued :
      (n : ℕ) (x : ℕ) (xs : List ℕ) (s : S)
      → queued s ≡ x ∷ xs
      → (k : ℕ) × (ys : List ℕ) × (y : ℕ) × ((io.recv (suc n) s).0 ≡ ok (y ∷ ys))
        × (queued (io.recv (suc n) s).1 ≡ drop k xs)
  pub none_queued :
      (n : ℕ) (s : S)
      → queued s ≡ []
      → (queued (io.recv (suc n) s).1 ≡ [])
        × (((io.recv (suc n) s).0 ≡ ok [])
            ⊎ ((e : Exn) × ((io.recv (suc n) s).0 ≡ raise e) × (is_blocking e ≡ true)))

module _ {S : Type 0} (io : Socket S) (queued : S → List ℕ) (law : ReceivesQueued io queued) where
  -- The loop has ended well, on an empty queue.
  abbrev pub Emptied : Option (Result (Unit {0}) × S) → Type 0
  Emptied none = ⊥
  Emptied (some (r, t)) = (r ≡ ok tt) × (queued t ≡ [])

  loop-Emptied :
      (fuel : ℕ) (xs : List ℕ) (s : S)
      → queued s ≡ xs
      → length xs < fuel
      → Emptied (reset_loop io fuel s)
  unfolding reset_loop after_recv
  loop-Emptied zero xs s q l = absurd (omega arith)
  loop-Emptied (suc fuel) [] s q l =
      let (still, r) = law.none_queued 4095 s q in
      elim r [ inl e ↦ rw e (refl, still) | inr (e, b, h) ↦ rw (b, h) (refl, still) ]
  loop-Emptied (suc fuel) (x ∷ xs) s q l =
      let (k, ys, y, h, rest) = law.some_queued 4095 x xs s q in
      rw h (loop-Emptied fuel (drop k xs) (io.recv 4096 s).1 rest (omega (arith, length-drop k xs)))

  after_reset-eq :
      (m : Mock S) (o : Option (Result (Unit {0}) × S))
      → Emptied o
      → ((after_reset m o).0 ≡ ok tt) × (queued (after_reset m o).1.this.sock ≡ [])
  unfolding after_reset
  after_reset-eq m none h = elim h [ ]
  after_reset-eq m (some (r, t)) h = h

  -- Over a socket that hands out what is queued, a part of it or all of it at a time, the loop of
  -- `reset_input_buffer` ends, within one more round than there are bytes queued, without an
  -- error, and nothing is queued any more.
  pub reset_input_buffer-empties :
      (m : Mock S)
      → let (r, after) = reset_input_buffer io (λ s. suc (length (queued s))) m in
        (r ≡ ok tt) × (queued after.this.sock ≡ [])
  unfolding reset_input_buffer
  reset_input_buffer-empties m =
      let enough : length (queued m.this.sock) < suc (length (queued m.this.sock)) = omega arith in
      after_reset-eq m (reset_loop io (suc (length (queued m.this.sock))) m.this.sock) (
        loop-Emptied (suc (length (queued m.this.sock))) (queued m.this.sock) m.this.sock refl
          enough)

module _ {S : Type 0} where
  -- What the peer, if there is one, reads from its modem lines.
  abbrev pub lines_at : Option (Mock S) → Option (Result ModemLines)
  lines_at none = none
  lines_at (some m) = some (modem_lines m).0

  -- After `set_control_lines(rts=…, dtr=…)` on one end of a pair, the other end reads the new RTS
  -- as its CTS and the new DTR as its DSR and CD, or the old value where none was given, with RI
  -- off; and this end reads its own modem lines as before.
  pub cross_wired :
      (rts dtr : Option Bool) (m : Mock S) (peer : MockState S)
      → m.peer ≡ some peer
      → let after = (set_control_lines rts dtr m).1 in
        (lines_at (other_end after)
          ≡ some (
              ok (record {
                cts = or_old rts m.this.rts;
                dsr = or_old dtr m.this.dtr;
                ri = false;
                cd = or_old dtr m.this.dtr;
              })))
        × ((modem_lines after).0
            ≡ ok (record { cts = peer.rts; dsr = peer.dtr; ri = false; cd = peer.dtr }))
  unfolding set_control_lines modem_lines other_end modem_lines_of
  cross_wired rts dtr m peer h = rw h (refl, refl)
