-- ===== src/EpollModes/OneShot.antt =====
-- HTTP_server_learning/epoll_one_shot.cpp: a thread for each event, and no further event of a socket
-- before its thread asks for it.
use linux_learning.Prelude.{
  ℕ, zero, suc, ◌≡◌, ◌∙◌, ap, refl, length, arith, true, false, List, [], ◌∷◌, ◌++◌, ◌==◌,
  if◌then◌else◌, Run, ok, out_of_fuel,
}
use linux_learning.EpollModes.{Received, got, ended, again, failed, Log, Event, print, close, addfd}
use linux_learning.EpollModes.Modes.{texts}
use linux_learning.CString.{NoNul, c_string}

-- The log, the sockets that reset_oneshot was called for, and the workers that were started.
pub record Shots : Type 0 where
  pub log : Log
  pub reset : List ℕ
  pub workers : List ℕ

-- `reset_oneshot`
pub reset_oneshot : ℕ → Shots → Shots
reset_oneshot fd s = record s { reset = fd ∷ s.reset }

-- What recv leaves in the buffer: the bytes that it does not write stay. Those behind the list are zeros.
pub overlay : List ℕ → List ℕ → List ℕ
overlay [] buf = buf
overlay (c ∷ bytes) [] = c ∷ bytes
overlay (c ∷ bytes) (_ ∷ buf) = c ∷ overlay bytes buf

-- The loop of worker, with its buffer. An error other than EAGAIN is passed over.
pub worker_loop : ℕ → Shots → List ℕ → List Received → Run Shots
worker_loop fd s buf [] = out_of_fuel
worker_loop fd s buf (ended ∷ rest) = ok (record s { log = close fd s.log })
worker_loop fd s buf (again ∷ rest) = ok (reset_oneshot fd s)
worker_loop fd s buf (failed ∷ rest) = worker_loop fd s buf rest
worker_loop fd s buf (got b bytes ∷ rest) =
    let buf' = overlay (b ∷ bytes) buf in
    worker_loop fd (record s { log = print fd (c_string buf') s.log }) buf' rest

-- The buffer is cleared before the loop only.
pub worker : ℕ → Shots → List Received → Run Shots
worker fd s received = worker_loop fd s [] received

-- The body of the loop over the events.
pub dispatch : ℕ → Shots → Event → Shots
dispatch listenfd s e =
    if e.fd == listenfd
    then record s { log = addfd e.accepted true s.log }
    else if e.readable
    then record s { workers = e.fd ∷ s.workers }
    else s

-- The log after the texts of the socket `fd`, with what the buffer has before them.
abbrev pub all_shown : ℕ → List (ℕ × List ℕ) → List ℕ → Log → Log
all_shown fd [] buf s = s
all_shown fd ((b, bytes) ∷ rest) buf s =
    all_shown fd rest (overlay (b ∷ bytes) buf) (print fd (c_string (overlay (b ∷ bytes) buf)) s)

worker_loop-reads :
    (fd : ℕ) (chunks : List (ℕ × List ℕ)) (s : Shots) (buf : List ℕ) (rest : List Received)
    → (worker_loop fd s buf (texts chunks ++ again ∷ rest)
        ≡ ok (record s { log = all_shown fd chunks buf s.log; reset = fd ∷ s.reset }))
      × (worker_loop fd s buf (texts chunks ++ ended ∷ rest)
          ≡ ok (record s { log = close fd (all_shown fd chunks buf s.log) }))
unfolding worker_loop reset_oneshot
worker_loop-reads fd [] s buf rest = (refl, refl)
worker_loop-reads fd ((b, bytes) ∷ chunks) s buf rest =
    let buf' = overlay (b ∷ bytes) buf in
    worker_loop-reads fd chunks (record s { log = print fd (c_string buf') s.log }) buf' rest

-- A worker that gets all that a socket has to give prints its buffer after each text and asks for the next
-- event once; at the end of the data it closes the socket once and does not ask.
pub worker-reads :
    (fd : ℕ) (chunks : List (ℕ × List ℕ)) (s : Shots) (rest : List Received)
    → (worker fd s (texts chunks ++ again ∷ rest)
        ≡ ok (record s { log = all_shown fd chunks [] s.log; reset = fd ∷ s.reset }))
      × (worker fd s (texts chunks ++ ended ∷ rest)
          ≡ ok (record s { log = close fd (all_shown fd chunks [] s.log) }))
unfolding worker
worker-reads fd chunks s rest = worker_loop-reads fd chunks s [] rest

-- As many errors as there are rounds.
abbrev pub errors : ℕ → List Received
errors zero = []
errors (suc n) = failed ∷ errors n

worker_loop-spins :
    (fd n : ℕ) (s : Shots) (buf : List ℕ) (rest : List Received)
    → (worker_loop fd s buf (errors n) ≡ out_of_fuel)
      × (worker_loop fd s buf (errors n ++ rest) ≡ worker_loop fd s buf rest)
unfolding worker_loop
worker_loop-spins fd zero s buf rest = (refl, refl)
worker_loop-spins fd (suc n) s buf rest = worker_loop-spins fd n s buf rest

-- On a socket on which recv has an error, a worker is not done after any number of rounds, and does nothing
-- in them.
pub worker-spins :
    (fd n : ℕ) (s : Shots) (rest : List Received)
    → (worker fd s (errors n) ≡ out_of_fuel) × (worker fd s (errors n ++ rest) ≡ worker fd s rest)
unfolding worker
worker-spins fd n s rest = worker_loop-spins fd n s [] rest

c_string-whole : (l : List ℕ) → NoNul l → c_string l ≡ l
c_string-whole [] h = refl
c_string-whole (x ∷ l) h =
    let more : (x == 0) ≡ false = ground (arith, h.0) in rw (more, c_string-whole l h.1) refl

c_string-overlay :
    (short rest old : List ℕ)
    → NoNul (short ++ rest)
    → length old ≡ length short
    → c_string (overlay short (old ++ rest)) ≡ short ++ rest
unfolding overlay
c_string-overlay [] rest [] v e = c_string-whole rest v
c_string-overlay [] rest (x ∷ old) v e = absurd (omega (arith, e))
c_string-overlay (c ∷ short) rest [] v e = absurd (omega (arith, e))
c_string-overlay (c ∷ short) rest (x ∷ old) v e =
    let more : (c == 0) ≡ false = ground (arith, v.0) in
    rw (more, c_string-overlay short rest old v.1 (omega (arith, e))) refl

-- When a text is followed by one that is shorter, and neither has a NUL, the worker prints the second one
-- with the end of the first behind it.
pub worker-mixes :
    (fd : ℕ) (s : Shots) (a c : ℕ) (old short rest : List ℕ)
    → length old ≡ length short
    → NoNul (a ∷ old ++ rest)
    → NoNul (c ∷ short ++ rest)
    → worker fd s (got a (old ++ rest) ∷ got c short ∷ again ∷ [])
      ≡ ok (record s {
        log = print fd (c ∷ short ++ rest) (print fd (a ∷ old ++ rest) s.log);
        reset = fd ∷ s.reset;
      })
unfolding worker overlay
worker-mixes fd s a c old short rest e v w =
    let one : c_string (a ∷ old ++ rest) ≡ a ∷ old ++ rest = c_string-whole (a ∷ old ++ rest) v in
    let two : c_string (c ∷ overlay short (old ++ rest)) ≡ c ∷ short ++ rest =
      c_string-overlay (c ∷ short) rest (a ∷ old) w (omega (arith, e)) in
    (worker_loop-reads fd ((a, old ++ rest) ∷ (c, short) ∷ []) s [] []).0
    ∙ ap
        (λ t. ok (record s {
          log = print fd (c_string (c ∷ overlay short (old ++ rest))) (print fd t s.log);
          reset = fd ∷ s.reset;
        }))
        one
    ∙ ap
        (λ t.
          ok (record s {
            log = print fd t (print fd (a ∷ old ++ rest) s.log);
            reset = fd ∷ s.reset;
          }))
        two
