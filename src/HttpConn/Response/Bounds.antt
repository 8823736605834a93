-- ===== src/HttpConn/Response/Bounds.antt =====
-- The write buffer of http_conn.cpp: what add_response puts there, and where its end is.
use linux_learning.Prelude.{
  ℕ, zero, suc, ◌+◌, ◌-◌, ◌≤◌, ◌<◌, ◌≡◌, refl, sym, ap, ◌∙◌, Bool, true, false, some, List, [], ◌∷◌,
  arith, leb, ◌==◌, if◌then◌else◌, length, take, get_elem?, update,
}
use linux_learning.CString.{Bytes, codes}
use linux_learning.HttpConn.{
  headers, file, Conn, HttpCode, no_request, get_request, bad_request, no_resource,
  forbidden_request, file_request, internal_error, closed_connection, write_buffer_size,
  store_bytes,
}
use linux_learning.HttpConn.Stored.{store_bytes-before, store_bytes-behind}
use linux_learning.HttpConn.Response.{
  add_response, add_status_line, add_content_length, add_linger, add_blank_line, add_headers,
  add_content, add_page, form_400, form_403, form_404, form_500, empty_page, one_segment,
  write_file, process_write,
}

-- The byte at place `i` of a text.
store_bytes-at :
    (l : List ℕ) (buf : Bytes) (at i : ℕ)
    → i < length l
    → some (store_bytes buf at l (at + i)) ≡ get_elem? l i
unfolding store_bytes
store_bytes-at [] buf at i lt = absurd (omega arith)
store_bytes-at (x ∷ l) buf at zero lt = ap some (
    ap (store_bytes (update buf at x) (at + 1) l) (omega arith)
    ∙ store_bytes-before l (update buf at x) (at + 1) at (omega arith)
    ∙ ground arith)
store_bytes-at (x ∷ l) buf at (suc i) lt =
    ap (λ k. some (store_bytes (update buf at x) (at + 1) l k)) (omega arith)
    ∙ store_bytes-at l (update buf at x) (at + 1) i (omega arith)

take-le : (n : ℕ) (l : List ℕ) → length (take n l) ≤ n
take-le zero l = omega arith
take-le (suc n) [] = omega arith
take-le (suc n) (x ∷ l) = omega (arith, take-le n l)

pub take-all : (n : ℕ) (l : List ℕ) → length l ≤ n → take n l ≡ l
take-all zero [] le = refl
take-all zero (x ∷ l) le = absurd (omega arith)
take-all (suc n) [] le = refl
take-all (suc n) (x ∷ l) le = ap (λ r. x ∷ r) (take-all n l (omega arith))

-- What a call of add_response does for the text.
pub record Appended (c : Conn) (text : List ℕ) (r : Bool × Conn) : Type 0 where
  pub inside : r.1.write_idx < write_buffer_size
  pub before : (j : ℕ) → j < c.write_idx → r.1.write_buf j ≡ c.write_buf j
  pub beyond : (j : ℕ) → write_buffer_size ≤ j → r.1.write_buf j ≡ c.write_buf j
  pub size : r.1.write_idx ≡ c.write_idx + (if r.0 then length text else 0)
  pub bytes :
      r.0 ≡ true
      → (i : ℕ) → i < length text
      → some (r.1.write_buf (c.write_idx + i)) ≡ get_elem? text i
  pub room : r.0 ≡ true → c.write_idx + length text + 1 < write_buffer_size
  pub full : r.0 ≡ false → write_buffer_size ≤ c.write_idx + length text + 1

not_taken : false ≡ true → ⊥
not_taken e = cc e

pub else_branch :
    (P : Bool × Conn → Type 0) (x y : Bool × Conn) (test : Bool)
    → test ≡ false
    → P y
    → P (if test then x else y)
else_branch P x y true e p = absurd cc
else_branch P x y false e p = p

-- The buffer after vsnprintf.
abbrev printed : Conn → List ℕ → Bytes
printed c text =
    let room = write_buffer_size - 1 - c.write_idx in
    let cut = take (room - 1) text in
    if room == 0
    then c.write_buf
    else update (store_bytes c.write_buf c.write_idx cut) (c.write_idx + length cut) 0

printed-before :
    (c : Conn) (text : List ℕ) (j : ℕ) → j < c.write_idx → printed c text j ≡ c.write_buf j
printed-before c text j lt =
    let cut = take (write_buffer_size - 1 - c.write_idx - 1) text in
    ground (arith, store_bytes-before cut c.write_buf c.write_idx j lt)

printed-beyond :
    (c : Conn) (text : List ℕ)
    → c.write_idx < write_buffer_size
    → (j : ℕ) → write_buffer_size ≤ j
    → printed c text j ≡ c.write_buf j
printed-beyond c text lt j le =
    let room = write_buffer_size - 1 - c.write_idx in
    let cut = take (room - 1) text in
    let short = take-le (room - 1) text in
    ground (
      arith,
      le,
      lt,
      short,
      store_bytes-behind cut c.write_buf c.write_idx j (omega (arith, le, lt, short)),
    )

printed-text :
    (c : Conn) (text : List ℕ)
    → length text < write_buffer_size - 1 - c.write_idx
    → (i : ℕ) → i < length text
    → some (printed c text (c.write_idx + i)) ≡ get_elem? text i
printed-text c text fits i lt =
    let cut = take (write_buffer_size - 1 - c.write_idx - 1) text in
    let whole : cut ≡ text =
      take-all (write_buffer_size - 1 - c.write_idx - 1) text (omega arith) in
    let there : printed c text (c.write_idx + i)
        ≡ store_bytes c.write_buf c.write_idx cut (c.write_idx + i) =
      ground (arith, ap length whole) in
    ap some (there ∙ ap (λ l. store_bytes c.write_buf c.write_idx l (c.write_idx + i)) whole)
    ∙ store_bytes-at text c.write_buf c.write_idx i lt

-- add_response on a buffer that is not full stays inside it and keeps the bytes before its text. If it
-- reports success the text stands behind them with room for its NUL and one byte more; if not, the text
-- would have left no such room, and the position is where it was.
pub add_response-Appended :
    (c : Conn) (text : List ℕ)
    → c.write_idx < write_buffer_size
    → Appended c text (add_response c text)
unfolding add_response
add_response-Appended c text lt =
    by_room (leb (write_buffer_size - 1 - c.write_idx) (length text)) refl
  where
    by_room :
        (b : Bool)
        → leb (write_buffer_size - 1 - c.write_idx) (length text) ≡ b
        → Appended c text (
            if leb write_buffer_size c.write_idx
            then (false, c)
            else if b
            then (false, record c { write_buf = printed c text })
            else (
              true,
              record c { write_buf = printed c text; write_idx = c.write_idx + length text },
            ))
    by_room true e =
        else_branch (Appended c text) (false, c) _ (leb write_buffer_size c.write_idx)
          (ground arith)
          (record {
            inside = lt;
            before = printed-before c text;
            beyond = printed-beyond c text lt;
            size = omega arith;
            bytes = λ x. absurd (not_taken x);
            room = λ x. absurd (not_taken x);
            full = λ _. ground arith;
          })
    by_room false e =
        let fits : length text < write_buffer_size - 1 - c.write_idx = ground arith in
        else_branch (Appended c text) (false, c) _ (leb write_buffer_size c.write_idx)
          (ground arith)
          (record {
            inside = omega arith;
            before = printed-before c text;
            beyond = printed-beyond c text lt;
            size = refl;
            bytes = λ _. printed-text c text fits;
            room = λ _. omega arith;
            full = λ x. absurd (not_taken (sym x));
          })

-- The position is inside the buffer, and what stands behind the buffer is what stood there before.
abbrev pub Inside : Bytes → Conn → Type 0
Inside buf c =
    (c.write_idx < write_buffer_size) × ((j : ℕ) → write_buffer_size ≤ j → c.write_buf j ≡ buf j)

add_response-Inside :
    (buf : Bytes) (c : Conn) (text : List ℕ) → Inside buf c → Inside buf (add_response c text).1
add_response-Inside buf c text v =
    let a = add_response-Appended c text v.0 in (a.inside, λ j le. a.beyond j le ∙ v.1 j le)

add_headers-Inside : (buf : Bytes) (c : Conn) (n : ℕ) → Inside buf c → Inside buf (add_headers c n)
unfolding add_headers add_content_length add_linger add_blank_line
add_headers-Inside buf c n v =
    add_response-Inside buf _ _ (add_response-Inside buf _ _ (add_response-Inside buf _ _ v))

add_page-Inside :
    (buf : Bytes) (c : Conn) (status : ℕ) (title body : List ℕ)
    → Inside buf c
    → Inside buf (add_page c status title body).1
unfolding add_status_line add_content
add_page-Inside buf c status title body v =
    add_response-Inside buf _ _ (add_headers-Inside buf _ _ (add_response-Inside buf _ _ v))

one_segment-Inside : (buf : Bytes) (r : Bool × Conn) → Inside buf r.1 → Inside buf (one_segment r).1
unfolding one_segment
one_segment-Inside buf (true, c) v = v
one_segment-Inside buf (false, c) v = v

answer_page-Inside :
    (buf : Bytes) (c : Conn) (status : ℕ) (title body : List ℕ)
    → Inside buf c
    → Inside buf (one_segment (add_page c status title body)).1
answer_page-Inside buf c status title body v =
    one_segment-Inside buf (add_page c status title body)
      (add_page-Inside buf c status title body v)

write_file-Inside : (buf : Bytes) (c : Conn) → Inside buf c → Inside buf (write_file c).1
unfolding write_file add_status_line add_content
write_file-Inside buf c v =
    let started = (add_status_line c 200 (codes "OK")).1 in
    let v' = add_response-Inside buf c _ v in
    let n = c.file_stat.size in
    if_inside (false, (add_content (add_headers started (length empty_page)) empty_page).1)
      (
        true,
        record (add_headers started n) {
          iv =
              headers (add_headers started n).write_idx
              ∷ file (add_headers started n).file_address n
              ∷ [];
        },
      )
      (n == 0) (add_response-Inside buf _ _ (add_headers-Inside buf started _ v'))
      (add_headers-Inside buf started n v')
  where
    if_inside :
        (x y : Bool × Conn) (test : Bool)
        → Inside buf x.1
        → Inside buf y.1
        → Inside buf (if test then x else y).1
    if_inside x y true p q = p
    if_inside x y false p q = q

code-Inside :
    (buf : Bytes) (c : Conn) (code : HttpCode) → Inside buf c → Inside buf (process_write c code).1
unfolding process_write
code-Inside buf c internal_error v =
    answer_page-Inside buf c 500 (codes "Internal Error") form_500 v
code-Inside buf c bad_request v = answer_page-Inside buf c 400 (codes "Bad Request") form_400 v
code-Inside buf c no_resource v = answer_page-Inside buf c 404 (codes "Not Found") form_404 v
code-Inside buf c forbidden_request v = answer_page-Inside buf c 403 (codes "Forbidden") form_403 v
code-Inside buf c file_request v = write_file-Inside buf c v
code-Inside buf c no_request v = v
code-Inside buf c get_request v = v
code-Inside buf c closed_connection v = v

-- Whatever process_write is asked to answer, on a buffer that is not full it leaves the position inside the
-- buffer and writes to no byte behind it.
pub process_write-Inside :
    (c : Conn) (code : HttpCode)
    → c.write_idx < write_buffer_size
    → ((process_write c code).1.write_idx < write_buffer_size)
      × ((j : ℕ) → write_buffer_size ≤ j → (process_write c code).1.write_buf j ≡ c.write_buf j)
process_write-Inside c code lt = code-Inside c.write_buf c code (lt, λ j le. refl)
