-- ===== src/HttpConn/Reply/Empty.antt =====
-- How process in http_conn.cpp answers a request for an empty file.
use linux_learning.Prelude.{ℕ, ◌-◌, ◌≡◌, refl, ◌∙◌, none, some, ◌∷◌}
use linux_learning.HttpConn.{Conn, Server, file_request, epollout, mod_fd, remove_fd, close_conn}
use linux_learning.HttpConn.Response.Empty.{empty_answer, empty_answer-sockfd, process_write-empty}
use linux_learning.HttpConn.Reply.{answer}

close_conn-open :
    (c : Conn) (w : Server) (fd : ℕ)
    → c.sockfd ≡ some fd
    → ((close_conn c w).0.sockfd ≡ none)
      × ((close_conn c w).1.user_count ≡ w.user_count - 1)
      × ((close_conn c w).1.epoll ≡ remove_fd fd ∷ w.epoll)
unfolding close_conn
close_conn-open c w fd e = rw e (refl, refl, refl)

-- When the file that an open connection asks for is empty, the page that was written for it is not sent:
-- the connection is closed, there is one user less, and then epoll is asked to watch the descriptor -1.
pub answer-empty_file :
    (c : Conn) (w : Server) (fd : ℕ)
    → c.sockfd ≡ some fd
    → c.file_stat.size ≡ 0
    → ((answer c w file_request).0.sockfd ≡ none)
      × ((answer c w file_request).1.user_count ≡ w.user_count - 1)
      × ((answer c w file_request).1.epoll ≡ mod_fd none epollout ∷ remove_fd fd ∷ w.epoll)
unfolding answer
answer-empty_file c w fd e empty =
    let (closed, users, calls) =
      close_conn-open (empty_answer c) w fd (empty_answer-sockfd c ∙ e) in
    rw (process_write-empty c empty) (closed, users, rw (closed, calls) refl)
