-- ===== src/EpollModes/Tests.antt =====
-- Events of epoll_LT_ET.cpp and epoll_one_shot.cpp on the socket 7.
use linux_learning.Prelude.{◌≡◌, refl, [], ◌∷◌, ok}
use linux_learning.EpollModes.{got, again, Log, print}
use linux_learning.EpollModes.OneShot.{Shots, worker, worker-mixes}

abbrev log : Log
log = record { printed = []; closed = []; added = [] }

abbrev shots : Shots
shots = record { log = log; reset = []; workers = [] }

worker-mixes_example :
    worker 7 shots (got b'h' (b'e' ∷ b'y' ∷ []) ∷ got b'n' (b'o' ∷ []) ∷ again ∷ [])
    ≡ ok (record shots {
      log = print 7 (b'n' ∷ b'o' ∷ b'y' ∷ []) (print 7 (b'h' ∷ b'e' ∷ b'y' ∷ []) log);
      reset = 7 ∷ [];
    })
worker-mixes_example =
    worker-mixes 7 shots b'h' b'n' (b'e' ∷ []) (b'o' ∷ []) (b'y' ∷ []) refl
      ((λ e. absurd (cc e)), ((λ e. absurd (cc e)), ((λ e. absurd (cc e)), tt)))
      ((λ e. absurd (cc e)), ((λ e. absurd (cc e)), ((λ e. absurd (cc e)), tt)))
