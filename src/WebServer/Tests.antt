-- ===== src/WebServer/Tests.antt =====
-- The web server at a concrete site.
use linux_learning.Prelude.{
  one_if, ℕ, ◌≡◌, refl, sym, ap, inl, Bool, true, false, none, some, [], ◌∷◌, arith, update,
  total-eq_zero, Halts, pos,
}
use linux_learning.ThreadPool.{fresh_sync}
use linux_learning.HttpConn.{Conn, got, would_block, closed, init, requestline, get, unmapped}
use linux_learning.HttpConn.Request.{FileSystem}
use linux_learning.WebServer.{Site, Event, event, worker, put, max_fd, turns}
use linux_learning.WebServer.Users.{IsSite, is_open, open_count}
use linux_learning.WebServer.Events.{init-IsSite}
use linux_learning.WebServer.Turns.{known_after, turns-IsSite}

abbrev new_conn : Conn
new_conn = record {
  sockfd = none;
  read_buf = λ _. 0;
  read_idx = 0;
  checked_idx = 0;
  start_line = 0;
  write_buf = λ _. 0;
  write_idx = 0;
  check_state = requestline;
  method = get;
  real_file = [];
  url = none;
  version = none;
  host = none;
  content_length = pos 0;
  linger = false;
  file_address = unmapped;
  file_stat = record { others_read = false; is_dir = false; size = 0 };
  iv = [];
}

abbrev empty_site : Site
empty_site = record {
  users = λ _. new_conn;
  server = record { user_count = 0; epoll = [] };
  pool = record { max_requests = 10; workqueue = []; stop = false; sync = fresh_sync };
  refused = [];
}

abbrev nobody : ℕ → Bool
nobody fd = false

empty-IsSite : IsSite empty_site nobody
unfolding open_count
empty-IsSite = record {
  own = λ fd k. inl refl;
  inside = λ fd k. (omega arith, omega arith);
  count = sym (total-eq_zero one_if max_fd (is_open nobody empty_site.users) (λ i. refl));
  queued = tt;
}

-- Socket 3 listens, and 7 is a client.
abbrev one_client : Site
one_client =
    put empty_site 7 (init 7 new_conn empty_site.server).0 (init 7 new_conn empty_site.server).1

abbrev client : ℕ → Bool
client = update nobody 7 true

one_client-IsSite : IsSite one_client client
one_client-IsSite = init-IsSite empty_site nobody 7 empty-IsSite (omega arith) refl

abbrev no_files : FileSystem
no_files = record { stat = λ _. none; map = λ _. none }

abbrev arrives : Event
arrives = record {
  fd = 7;
  failed = false;
  readable = true;
  writable = false;
  accepted = none;
  received = got (71 ∷ []) ∷ would_block ∷ [];
  written = [];
}

abbrev connects : Event
connects = record {
  fd = 3;
  failed = false;
  readable = true;
  writable = false;
  accepted = some 8;
  received = closed ∷ [];
  written = [];
}

turns-IsSite_example :
    Halts
      (λ s'. IsSite s' (known_after 3 one_client client (event connects ∷ worker no_files ∷ [])))
      (turns 3 one_client (event connects ∷ worker no_files ∷ []))
turns-IsSite_example =
    turns-IsSite 3 one_client client (event connects ∷ worker no_files ∷ []) one_client-IsSite (
      record {
        fresh = λ e fd a.
            let same : fd ≡ 8 = cc a in
            (omega (arith, same), ap (is_open client one_client.users) same);
        client = λ e. absurd (cc e);
        recvs = λ e. tt;
        sends = λ e. absurd (cc e);
      },
      λ s' _ s'' _. tt,
    )
