-- ===== src/HttpConn/Response/Empty.antt =====
-- process_write of http_conn.cpp for an empty file.
use linux_learning.Prelude.{
  ℕ, ◌≡◌, ap, ◌∙◌, true, false, List, [], ◌∷◌, ◌==◌, arith, if◌then◌else◌, length,
}
use linux_learning.CString.{codes}
use linux_learning.HttpConn.{Conn, file_request, headers, file}
use linux_learning.HttpConn.Response.{
  add_response, add_status_line, add_content_length, add_linger, add_blank_line, add_headers,
  add_content, write_file, process_write, empty_page,
}

add_response-sockfd : (c : Conn) (text : List ℕ) → (add_response c text).1.sockfd ≡ c.sockfd
unfolding add_response
add_response-sockfd c text = ground arith

add_headers-sockfd : (c : Conn) (n : ℕ) → (add_headers c n).sockfd ≡ c.sockfd
unfolding add_headers add_content_length add_linger add_blank_line
add_headers-sockfd c n = add_response-sockfd _ _ ∙ add_response-sockfd _ _ ∙ add_response-sockfd _ _

-- What is left after the branch of an empty file.
abbrev pub empty_answer : Conn → Conn
empty_answer c =
    (add_content (add_headers (add_status_line c 200 (codes "OK")).1 (length empty_page))
      empty_page).1

pub empty_answer-sockfd : (c : Conn) → (empty_answer c).sockfd ≡ c.sockfd
unfolding add_content add_status_line
empty_answer-sockfd c = add_response-sockfd _ _ ∙ add_headers-sockfd _ _ ∙ add_response-sockfd _ _

pub process_write-empty :
    (c : Conn) → c.file_stat.size ≡ 0 → process_write c file_request ≡ (false, empty_answer c)
unfolding process_write write_file
process_write-empty c e =
    ap
      (λ n.
        if n == 0
        then (false, empty_answer c)
        else (true, after (add_headers (add_status_line c 200 (codes "OK")).1 n) n))
      e
  where
    after : Conn → ℕ → Conn
    after d n = record d { iv = headers d.write_idx ∷ file d.file_address n ∷ [] }
