-- ===== src/WebServer.antt =====
-- HTTP_server_learning/http_web_server.cpp: the main loop, over HttpConn and ThreadPool.
-- epoll_wait and accept are the kernel's: what they report is in the events, and so is what recv and
-- writev report when the connection is read or written. A worker of the pool takes a turn of its own,
-- and turns do not overlap.
pub mod Users
pub mod Events
pub mod Turns
mod Tests
use linux_learning.Prelude.{
  ℕ, Bool, true, false, Option, none, some, List, [], ◌∷◌, ltb, leb, ◌==◌, if◌then◌else◌, update,
  Run, ok, fault, ◌>>=◌,
}
use linux_learning.ThreadPool.{Pool, Request, enqueue, dequeue, post, wait}
use linux_learning.HttpConn.{Conn, Server, Received, init, close_conn, read}
use linux_learning.HttpConn.Request.{FileSystem}
use linux_learning.HttpConn.Reply.{Written, write, process}

abbrev pub max_fd : ℕ
max_fd = 65536

-- `refused` has the sockets that show_error has closed, the last one first.
pub record Site : Type 0 where
  pub users : ℕ → Conn
  pub server : Server
  pub pool : Pool
  pub refused : List ℕ

-- An entry of `events`: the socket, whether EPOLLRDHUP, EPOLLHUP or EPOLLERR is set, whether EPOLLIN
-- is, and whether EPOLLOUT is; with what accept, recv and writev report when they are called for it.
pub record Event : Type 0 where
  pub fd : ℕ
  pub failed : Bool
  pub readable : Bool
  pub writable : Bool
  pub accepted : Option ℕ
  pub received : List Received
  pub written : List Written

-- `users[fd]`
pub user : Site → ℕ → Run Conn
user s fd = if ltb fd max_fd then ok (s.users fd) else fault

abbrev pub put : Site → ℕ → Conn → Server → Site
put s fd c w = record s { users = update s.users fd c; server = w }

-- `show_error`
pub show_error : Site → ℕ → Site
show_error s connfd = record s { refused = connfd ∷ s.refused }

-- The branch of the listening socket.
pub accept : Site → Option ℕ → Run Site
accept s none = ok s
accept s (some connfd) =
    let welcome : Run Site = do
      c ← user s connfd
      let (c', w) = init connfd c s.server
      ok (put s connfd c' w)
    in if leb max_fd s.server.user_count then ok (show_error s connfd) else welcome

-- `users[sockfd].close_conn();`
pub hang_up : Site → ℕ → Run Site
hang_up s sockfd = do c ← user s sockfd; let (c', w) = close_conn c s.server; ok (put s sockfd c' w)

-- `pool->append(users + sockfd);`
pub append : Site → ℕ → Site
append s sockfd =
    let (p, taken) = enqueue s.pool (some sockfd) in
    if taken then record s { pool = record p { sync = post p.sync } } else record s { pool = p }

-- The branches of EPOLLIN and of EPOLLOUT.
pub on_readable : Site → ℕ → List Received → Run Site
on_readable s sockfd received = do
  c ← user s sockfd
  (good, c') ← read c received
  let s' = put s sockfd c' s.server
  let closed = hang_up s' sockfd
  if good then ok (append s' sockfd) else closed

pub on_writable : Site → ℕ → List Written → Run Site
on_writable s sockfd written = do
  c ← user s sockfd
  (good, c', w) ← write c s.server written
  let s' = put s sockfd c' w
  let closed = hang_up s' sockfd
  if good then ok s' else closed

-- The body of the loop over the events.
pub handle_event : ℕ → Site → Event → Run Site
handle_event listenfd s e =
    if e.fd == listenfd
    then accept s e.accepted
    else if e.failed
    then hang_up s e.fd
    else if e.readable
    then on_readable s e.fd e.received
    else if e.writable
    then on_writable s e.fd e.written
    else ok s

pub handle_events : ℕ → Site → List Event → Run Site
handle_events listenfd s [] = ok s
handle_events listenfd s (e ∷ events) = do
  s' ← handle_event listenfd s e
  handle_events listenfd s' events

-- What epoll_wait reports: an error, an interrupted call, or events.
pub data Waited : Type 0 where
  failure interrupted : Waited
  ready : List Event → Waited

-- The loop of main over these reports, and whether it has been left.
pub main_loop : ℕ → Site → List Waited → Run (Bool × Site)
main_loop listenfd s [] = ok (false, s)
main_loop listenfd s (failure ∷ rest) = ok (true, s)
main_loop listenfd s (interrupted ∷ rest) = main_loop listenfd s rest
main_loop listenfd s (ready events ∷ rest) = do
  s' ← handle_events listenfd s events
  main_loop listenfd s' rest

-- A worker's turn, once its wait on the semaphore returns: what it took from the queue is processed.
pub serve : FileSystem → Site → Pool × Option Request → Run Site
serve fs s (p, none) = ok (record s { pool = p })
serve fs s (p, some none) = ok (record s { pool = p })
serve fs s (p, some (some fd)) = do
  c ← user s fd
  (c', w) ← process fs c s.server
  ok (put (record s { pool = p }) fd c' w)

pub work : FileSystem → Site → Run Site
work fs s = elim (wait s.pool.sync) [
  | none ↦ ok s
  | some sync ↦ serve fs s (dequeue (record s.pool { sync = sync }))
]

-- Who acts next: the main loop on an event, or a worker.
pub data Turn : Type 0 where
  event : Event → Turn
  worker : FileSystem → Turn

pub turn : ℕ → Site → Turn → Run Site
turn listenfd s (event e) = handle_event listenfd s e
turn listenfd s (worker fs) = work fs s

pub turns : ℕ → Site → List Turn → Run Site
turns listenfd s [] = ok s
turns listenfd s (t ∷ rest) = do s' ← turn listenfd s t; turns listenfd s' rest
