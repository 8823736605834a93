-- ===== src/HttpConn/Effects.antt =====
-- What process of http_conn.cpp, which a worker calls, does to the socket of the connection and the number
-- of users.
use linux_learning.Prelude.{
  ℕ, refl, sym, ap, ◌∙◌, inl, inr, Bool, true, false, List, arith, ◌==◌, if◌then◌else◌, is_some,
  Halts, returns, Halts-bind,
}
use linux_learning.CString.{codes}
use linux_learning.HttpConn.{
  Conn, Server, HttpCode, close_conn, call, mod_fd, epollout, no_request, get_request, bad_request,
  no_resource, forbidden_request, file_request, internal_error, closed_connection,
}
use linux_learning.HttpConn.Request.{FileSystem}
use linux_learning.HttpConn.Request.Fuel.{process_read-Halts}
use linux_learning.HttpConn.Response.{
  add_response, add_status_line, add_headers, add_content_length, add_linger, add_blank_line,
  add_content, one_segment, write_file, add_page, process_write,
}
use linux_learning.HttpConn.Reply.{answer, process}
use linux_learning.HttpConn.Transfers.{Inside, Same, Moves, close_conn-Moves}

Same-trans : (c d e : Conn) → Same c d → Same d e → Same c e
Same-trans c d e p q = (q.0 ∙ p.0, q.1 ∙ p.1, q.2 ∙ p.2)

add_response-Same : (c : Conn) (text : List ℕ) → Same c (add_response c text).1
unfolding add_response
add_response-Same c text = (ground arith, ground arith, ground arith)

add_page-Same :
    (c : Conn) (status : ℕ) (title body : List ℕ) → Same c (add_page c status title body).1
unfolding add_content add_headers add_status_line add_content_length add_linger add_blank_line
add_page-Same c status title body =
    let step = λ (d : Conn) (text : List ℕ) (p : Same c d).
      Same-trans c d (add_response d text).1 p (add_response-Same d text) in
    step _ _ (step _ _ (step _ _ (step _ _ (step _ _ (refl, refl, refl)))))

one_segment-Same : (c : Conn) (r : Bool × Conn) → Same c r.1 → Same c (one_segment r).1
unfolding one_segment
one_segment-Same c (true, d) p = p
one_segment-Same c (false, d) p = p

Same-if :
    (c : Conn) (test : Bool) (x y : Bool × Conn)
    → Same c x.1
    → Same c y.1
    → Same c (if test then x else y).1
Same-if c true x y p q = p
Same-if c false x y p q = q

write_file-Same : (c : Conn) → Same c (write_file c).1
unfolding write_file add_content add_headers add_status_line add_content_length add_linger
    add_blank_line
write_file-Same c =
    let step = λ (d : Conn) (text : List ℕ) (p : Same c d).
      Same-trans c d (add_response d text).1 p (add_response-Same d text) in
    let started : Same c (add_status_line c 200 (codes "OK")).1 = step _ _ (refl, refl, refl) in
    Same-if c (c.file_stat.size == 0) _ _ (step _ _ (step _ _ (step _ _ (step _ _ started))))
      (step _ _ (step _ _ (step _ _ started)))

process_write-Same : (c : Conn) (code : HttpCode) → Same c (process_write c code).1
unfolding process_write
process_write-Same c internal_error = one_segment-Same c _ (add_page-Same c 500 _ _)
process_write-Same c bad_request = one_segment-Same c _ (add_page-Same c 400 _ _)
process_write-Same c no_resource = one_segment-Same c _ (add_page-Same c 404 _ _)
process_write-Same c forbidden_request = one_segment-Same c _ (add_page-Same c 403 _ _)
process_write-Same c file_request = write_file-Same c
process_write-Same c no_request = (refl, refl, refl)
process_write-Same c get_request = (refl, refl, refl)
process_write-Same c closed_connection = (refl, refl, refl)

answered-Moves :
    (c : Conn) (w : Server) (r : Bool × Conn)
    → Inside c
    → Same c r.1
    → let s : Conn × Server = if r.0 then (r.1, w) else close_conn r.1 w in
      Moves c w s.0 (call (mod_fd s.0.sockfd epollout) s.1)
answered-Moves c w (true, d) v p =
    ((omega (arith, v, p.1, p.2), omega (arith, v, p.1)), inl (p.0, refl))
answered-Moves c w (false, d) v p =
    let (inside, moved) =
      close_conn-Moves d w (omega (arith, v, p.1, p.2), omega (arith, v, p.1)) in
    (
      inside,
      elim moved [
        | inl same ↦ inl (same.0 ∙ p.0, same.1)
        | inr gone ↦ inr (sym (ap is_some p.0) ∙ gone.0, gone.1, gone.2)
      ],
    )

answer-Moves :
    (c : Conn) (w : Server) (code : HttpCode)
    → Inside c
    → Moves c w (answer c w code).0 (answer c w code).1
unfolding answer
answer-Moves c w no_request v = (v, inl (refl, refl))
answer-Moves c w get_request v =
    answered-Moves c w (process_write c get_request) v (process_write-Same c get_request)
answer-Moves c w bad_request v =
    answered-Moves c w (process_write c bad_request) v (process_write-Same c bad_request)
answer-Moves c w no_resource v =
    answered-Moves c w (process_write c no_resource) v (process_write-Same c no_resource)
answer-Moves c w forbidden_request v =
    answered-Moves c w (process_write c forbidden_request) v
      (process_write-Same c forbidden_request)
answer-Moves c w file_request v =
    answered-Moves c w (process_write c file_request) v (process_write-Same c file_request)
answer-Moves c w internal_error v =
    answered-Moves c w (process_write c internal_error) v (process_write-Same c internal_error)
answer-Moves c w closed_connection v =
    answered-Moves c w (process_write c closed_connection) v
      (process_write-Same c closed_connection)

-- A connection that is processed stays as it is or is closed and counted out, unless the parser reads
-- outside of the buffer.
pub process-Moves :
    (fs : FileSystem) (c : Conn) (w : Server)
    → Inside c
    → Halts (λ r. Moves c w r.0 r.1) (process fs c w)
unfolding process
process-Moves fs c w v = Halts-bind (process_read-Halts fs c v.0 v.1) λ r kept.
    let (inside, moved) = answer-Moves r.1 w r.0 (kept.2, omega (arith, kept.1, v.1)) in
    returns (
      inside,
      elim moved [
        | inl same ↦ inl (same.0 ∙ kept.0, same.1)
        | inr gone ↦ inr (sym (ap is_some kept.0) ∙ gone.0, gone.1, gone.2)
      ],
    )
