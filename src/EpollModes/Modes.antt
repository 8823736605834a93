-- ===== src/EpollModes/Modes.antt =====
-- The two modes of epoll_LT_ET.cpp against one another.
use linux_learning.Prelude.{ℕ, ◌≡◌, refl, sym, true, false, none, List, [], ◌∷◌, ◌++◌, ◌==◌, ok}
use linux_learning.EpollModes.{
  Received, got, ended, again, failed, Log, Event, print, close, lt_read, lt_event, lt, et_read,
  et_event, et,
}
use linux_learning.CString.{c_string}

-- The texts that a socket sends, as recv gives them.
abbrev pub texts : List (ℕ × List ℕ) → List Received
texts [] = []
texts ((b, bytes) ∷ rest) = got b bytes ∷ texts rest

-- The log after these texts of the socket `fd`.
abbrev pub all_printed : ℕ → List (ℕ × List ℕ) → Log → Log
all_printed fd [] s = s
all_printed fd ((b, bytes) ∷ rest) s = all_printed fd rest (print fd (c_string (b ∷ bytes)) s)

abbrev pub readable : ℕ → List Received → Event
readable fd received = record { fd = fd; readable = true; accepted = none; received = received }

-- An event for each text.
abbrev pub one_by_one : ℕ → List (ℕ × List ℕ) → List Event
one_by_one fd [] = []
one_by_one fd ((b, bytes) ∷ rest) = readable fd (got b bytes ∷ []) ∷ one_by_one fd rest

et_read-all :
    (fd : ℕ) (chunks : List (ℕ × List ℕ)) (s : Log) (rest : List Received)
    → et_read fd s (texts chunks ++ again ∷ rest) ≡ ok (all_printed fd chunks s)
unfolding et_read
et_read-all fd [] s rest = refl
et_read-all fd ((b, bytes) ∷ chunks) s rest =
    et_read-all fd chunks (print fd (c_string (b ∷ bytes)) s) rest

lt-all :
    (listenfd fd : ℕ) (chunks : List (ℕ × List ℕ)) (s : Log)
    → (fd == listenfd) ≡ false
    → lt listenfd s (one_by_one fd chunks) ≡ ok (all_printed fd chunks s)
unfolding lt lt_event lt_read
lt-all listenfd fd [] s client = refl
lt-all listenfd fd ((b, bytes) ∷ chunks) s client =
    rw client (lt-all listenfd fd chunks (print fd (c_string (b ∷ bytes)) s) client)

-- On a socket that is not the listening one, one event in the edge-triggered mode is worth as many in the level-triggered one as there are texts to be
-- read: both print these texts in their order, and nothing is closed.
pub et-lt :
    (listenfd fd : ℕ) (chunks : List (ℕ × List ℕ)) (s : Log)
    → (fd == listenfd) ≡ false
    → et listenfd s (readable fd (texts chunks ++ again ∷ []) ∷ [])
      ≡ lt listenfd s (one_by_one fd chunks)
unfolding et et_event
et-lt listenfd fd chunks s client =
    rw (client, et_read-all fd chunks s []) (sym (lt-all listenfd fd chunks s client))

et_read-ended :
    (fd : ℕ) (chunks : List (ℕ × List ℕ)) (s : Log)
    → et_read fd s (texts chunks ++ ended ∷ failed ∷ [])
      ≡ ok (close fd (close fd (all_printed fd chunks s)))
unfolding et_read
et_read-ended fd [] s = refl
et_read-ended fd ((b, bytes) ∷ chunks) s =
    et_read-ended fd chunks (print fd (c_string (b ∷ bytes)) s)

-- When the other side has closed the connection, et prints what is left, closes the socket, reads from the
-- closed socket, which is an error, and closes it again; lt closes it once.
pub et-closes_twice :
    (listenfd fd : ℕ) (chunks : List (ℕ × List ℕ)) (s : Log)
    → (fd == listenfd) ≡ false
    → (et listenfd s (readable fd (texts chunks ++ ended ∷ failed ∷ []) ∷ [])
        ≡ ok (close fd (close fd (all_printed fd chunks s))))
      × (lt listenfd s (readable fd (ended ∷ []) ∷ []) ≡ ok (close fd s))
unfolding et et_event lt lt_event lt_read
et-closes_twice listenfd fd chunks s client =
    (rw (client, et_read-ended fd chunks s) refl, rw client refl)
