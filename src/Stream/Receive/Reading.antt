-- ===== src/Stream/Receive/Reading.antt =====
-- What the three reading methods return.
use anyserial.Base.{
  ℕ, ◌≤◌, ◌<◌, ◌≡◌, ◌⊎◌, inl, inr, refl, Option, none, some, List, [], ◌∷◌, ◌++◌, length, drop,
  length-append, length-drop, arith, ℤ, pos, negsuc, if_intro, subst, ◌==◌, if◌then◌else◌,
  Bool-cases,
}
use anyserial.Errors.{Result, ok, raise, is_retry}
use anyserial.Backend.Protocol.{SyncBackend}
use anyserial.Stream.Port.{Port, Task, Wake, ready, threw, Reply, Outcome, finished, parked}
use anyserial.Stream.Loop.{resume}
use anyserial.Stream.Receive.{
  read_step, after_read, after_waiting, buffer_size, limited, resume_receive, resume_receive_into,
  resume_available, resume_available_again, fill,
}

-- The documented behaviour of a read: no more bytes than the buffer holds.
pub record ReadsWithin {B : Type 0} (be : SyncBackend B) : Type 0 where
  pub fits : (n : ℕ) (b : B) (xs : List ℕ) → (be.read_nonblocking n b).0 ≡ ok xs → length xs ≤ n

-- `limit` allows that many bytes.
abbrev pub Allows : Option ℤ → ℕ → Type 0
Allows none n = Unit
Allows (some (pos m)) n = n ≤ m
Allows (some (negsuc m)) n = n ≡ 0

limited-Allows : (size : ℕ) (limit : Option ℤ) → Allows limit (limited size limit)
unfolding limited
limited-Allows size none = tt
limited-Allows size (some (pos n)) = ground arith
limited-Allows size (some (negsuc n)) = refl

-- The bytes read go to the front of the caller's buffer; its size and its rest stay.
pub record IsFilled (buffer xs after : List ℕ) : Type 0 where
  pub some_read : 0 < length xs
  pub fits : length xs ≤ length buffer
  pub size : length after ≡ length buffer
  pub whole : after ≡ xs ++ drop (length xs) buffer

fill-IsFilled :
    (buffer xs : List ℕ)
    → 0 < length xs
    → length xs ≤ length buffer
    → IsFilled buffer xs (xs ++ drop (length xs) buffer)
fill-IsFilled buffer xs h k = record {
  some_read = h;
  fits = k;
  size = omega (arith, length-append xs (drop (length xs) buffer), length-drop (length xs) buffer);
  whole = refl;
}

-- No byte may be returned under this limit.
abbrev pub NoRoom : Option ℤ → Type 0
NoRoom none = ⊥
NoRoom (some (pos n)) = n ≡ 0
NoRoom (some (negsuc n)) = Unit

Allows-le : (limit : Option ℤ) (n size : ℕ) → n ≤ size → Allows limit size → Allows limit n
Allows-le none n size h a = tt
Allows-le (some (pos m)) n size h a = omega arith
Allows-le (some (negsuc m)) n size h a = omega arith

no_room : (size : ℕ) (limit : Option ℤ) → 0 < size → limited size limit ≡ 0 → NoRoom limit
unfolding limited
no_room size none h z = absurd (omega arith)
no_room size (some (pos n)) h z = ground arith
no_room size (some (negsuc n)) h z = tt

module _ {B : Type 0} (be : SyncBackend B) (law : ReadsWithin be) where
  -- These are the bytes that the backend reads, one or more and at most `size`.
  pub record IsRead (b : B) (size : ℕ) (xs : List ℕ) : Type 0 where
    pub from_backend : (be.read_nonblocking size b).0 ≡ ok xs
    pub some_read : 0 < length xs
    pub fits : length xs ≤ size

  -- A read loop parks again as it was, raises, or returns what the backend read.
  abbrev pub Reads : Task → (List ℕ → Reply) → ℕ → B → Outcome → Type 0
  Reads again reply size b (parked t) = t ≡ again
  Reads again reply size b (finished (raise e)) = Unit
  Reads again reply size b (finished (ok r)) = (xs : List ℕ) × (r ≡ reply xs) × IsRead b size xs

  after_read-Reads :
      (again : Task) (reply : List ℕ → Reply) (size : ℕ) (p : Port B) (b : B) (r : Result (List ℕ))
      → (be.read_nonblocking size b).0 ≡ r
      → Reads again reply size b (after_read be again reply p r).1
  unfolding after_read
  after_read-Reads again reply size p b (ok []) e = tt
  after_read-Reads again reply size p b (ok (x ∷ xs)) e = (
    x ∷ xs,
    refl,
    record { from_backend = e; some_read = omega arith; fits = law.fits size b (x ∷ xs) e },
  )
  after_read-Reads again reply size p b (raise e) f =
      if_intro (λ (o : Port B × Outcome). Reads again reply size b o.1) (is_retry e) _ _ refl tt

  read_step-Reads :
      (again : Task) (reply : List ℕ → Reply) (size : ℕ) (k : Wake) (p : Port B)
      → Reads again reply size p.backend (read_step be again reply size k p).1
  unfolding read_step
  read_step-Reads again reply size (threw e) p = tt
  read_step-Reads again reply size ready p =
      if_intro (λ (o : Port B × Outcome). Reads again reply size p.backend o.1) p.closed _ _ tt
        (after_read-Reads again reply size _ p.backend (be.read_nonblocking size p.backend).0 refl)

  -- What each reading method may answer when it is resumed on a backend.
  abbrev pub Answer : Task → B → Outcome → Type 0
  Answer (Task.receiving n fd) b o = Reads (Task.receiving n fd) Reply.received n b o
  Answer (Task.receiving_into buffer fd) b (parked t) = t ≡ Task.receiving_into buffer fd
  Answer (Task.receiving_into buffer fd) b (finished (raise e)) = Unit
  Answer (Task.receiving_into buffer fd) b (finished (ok r)) =
      (xs : List ℕ) × (after : List ℕ) × (r ≡ Reply.filled (length xs) after)
      × IsRead b (length buffer) xs
      × IsFilled buffer xs after
  Answer (Task.available limit fd) b (parked t) =
      (size : ℕ) × (t ≡ Task.available_again size fd) × (0 < size) × Allows limit size
  Answer (Task.available limit fd) b (finished (raise e)) = Unit
  Answer (Task.available limit fd) b (finished (ok r)) =
      (xs : List ℕ) × (r ≡ Reply.received xs)
      × Allows limit (length xs)
      × (((size : ℕ) × IsRead (be.input_waiting b).1 size xs) ⊎ (NoRoom limit × (xs ≡ [])))
  Answer (Task.available_again size fd) b o =
      Reads (Task.available_again size fd) Reply.received size b o
  Answer _ b o = Unit

  filled-Answer :
      (buffer : List ℕ) (fd : ℤ) (b : B) (o : Outcome)
      → Reads (Task.receiving_into buffer fd) (fill buffer) (length buffer) b o
      → Answer (Task.receiving_into buffer fd) b o
  filled-Answer buffer fd b (parked t) h = h
  filled-Answer buffer fd b (finished (raise e)) h = tt
  filled-Answer buffer fd b (finished (ok r)) h =
      let (xs, e, i) = h in
      (xs, xs ++ drop (length xs) buffer, e, i, fill-IsFilled buffer xs i.some_read i.fits)

  available-Answer :
      (limit : Option ℤ) (fd : ℤ) (size : ℕ) (b : B) (o : Outcome)
      → 0 < size
      → Allows limit size
      → Reads (Task.available_again size fd) Reply.received size (be.input_waiting b).1 o
      → Answer (Task.available limit fd) b o
  available-Answer limit fd size b (parked t) z a h = (size, h, z, a)
  available-Answer limit fd size b (finished (raise e)) z a h = tt
  available-Answer limit fd size b (finished (ok r)) z a h =
      let (xs, e, i) = h in (xs, e, Allows-le limit (length xs) size i.fits a, inl (size, i))

  after_waiting-Answer :
      (limit : Option ℤ) (fd : ℤ) (p : Port B) (b : B) (r : Result ℕ)
      → 0 < p.config.read_chunk_size
      → p.backend ≡ (be.input_waiting b).1
      → Answer (Task.available limit fd) b (after_waiting be limit fd p r).1
  unfolding after_waiting buffer_size
  after_waiting-Answer limit fd p b (raise e) c s = tt
  after_waiting-Answer limit fd p b (ok waiting) c s =
      let base = if waiting == 0 then p.config.read_chunk_size else waiting in
      let positive : 0 < base = ground arith in
      let size = limited base limit in
      elim (Bool-cases (size == 0)) [
        | inl none_left ↦ rw none_left (
          [],
          refl,
          Allows-le limit 0 size (omega arith) (limited-Allows base limit),
          inr (no_room base limit positive (ground arith), refl),
        )
        | inr some_left ↦ rw some_left (
            available-Answer limit fd size b _ (ground arith) (limited-Allows base limit) (
              subst
                (λ q.
                  Reads (Task.available_again size fd) Reply.received size q
                    (read_step be (Task.available_again size fd) Reply.received size ready p).1)
                s (read_step-Reads (Task.available_again size fd) Reply.received size ready p)))
      ]

  -- A backend never reads more than the buffer holds, and the configured read chunk is not 0.
  -- However a reading coroutine is resumed, it parks, or raises, or returns exactly the bytes that the
  -- backend reads at that moment, one or more and at most what was asked for: `receive` and the
  -- retries of `receive_available` these bytes, `receive_into` their number, with the bytes at the
  -- front of the caller's buffer and the rest of it untouched. `receive_available`, first resumed,
  -- returns the bytes read after the queue was asked for its depth, no more than its limit allows,
  -- or no byte where the limit leaves no room for one. Each parks again with the arguments that it
  -- had, `receive_available` then as a retry of a size that its limit allows.
  pub resume-Answer :
      (t : Task) (k : Wake) (p : Port B)
      → 0 < p.config.read_chunk_size
      → Answer t p.backend (resume be t k p).1
  unfolding resume resume_receive resume_receive_into resume_available resume_available_again
  resume-Answer (Task.receiving n fd) k p c =
      read_step-Reads (Task.receiving n fd) Reply.received n k p
  resume-Answer (Task.receiving_into buffer fd) k p c =
      filled-Answer buffer fd p.backend _
        (read_step-Reads (Task.receiving_into buffer fd) (fill buffer) (length buffer) k p)
  resume-Answer (Task.available limit fd) (threw e) p c = tt
  resume-Answer (Task.available limit fd) ready p c =
      if_intro (λ (x : Port B × Outcome). Answer (Task.available limit fd) p.backend x.1) p.closed _
        _ tt (after_waiting-Answer limit fd _ p.backend (be.input_waiting p.backend).0 c refl)
  resume-Answer (Task.available_again size fd) k p c =
      read_step-Reads (Task.available_again size fd) Reply.received size k p
  resume-Answer (Task.sending rest fd) k p c = tt
  resume-Answer (Task.draining bps above below) k p c = tt
  resume-Answer Task.draining_exact k p c = tt
  resume-Answer (Task.breaking d) k p c = tt
  resume-Answer Task.close_turn k p c = tt
  resume-Answer (Task.configure_turn config) k p c = tt
