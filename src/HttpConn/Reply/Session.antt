-- ===== src/HttpConn/Reply/Session.antt =====
-- Requests one after the other on a connection of http_conn.cpp.
use mathlib.Core.Path.{subst}
use linux_learning.Prelude.{
  ℕ, ◌+◌, ◌-◌, ◌≤◌, ◌<◌, ◌≡◌, refl, sym, ap, ◌∙◌, arith, All, Bool, true, false, ◌==◌, leb, Option,
  none, some, List, [], ◌∷◌, ◌++◌, length, length-append, take, if◌then◌else◌, ok, ◌>>=◌, Yields,
  yields, Yields-bind, Yields-ok,
}
use linux_learning.CString.{Bytes}
use linux_learning.CString.Spells.{Reads}
use linux_learning.HttpConn.{
  Conn, Server, FileStat, file, mapped, epollin, mod_fd, call, init, reset,
}
use linux_learning.HttpConn.Request.{FileSystem}
use linux_learning.HttpConn.Request.Found.{file_of, mapping_of}
use linux_learning.HttpConn.Response.Bounds.{take-all}
use linux_learning.HttpConn.Response.Pages.{answer_text, body_of}
use linux_learning.HttpConn.Reply.{sent, unmap, write, write_loop}
use linux_learning.HttpConn.Reply.Answered.{Ready, request-Answered}
use linux_learning.HttpConn.Reply.Asked.{
  Asked, keeps, stat_of, file_bytes, answer_to, IsMapped, IsAsked, bytes_from, iv_bytes, turn,
  session, answers_to, all_keep, IsFresh,
}

some_text : (keep : Bool) (o : Option FileStat) → 0 < length (answer_text keep o)
some_text keep none = omega arith
some_text keep (some st) = of_file st.others_read st.is_dir
  where
    of_file :
        (may_read dir : Bool)
        → 0
          < length (
              answer_text keep
                (some (record { others_read = may_read; is_dir = dir; size = st.size })))
    of_file true true = omega arith
    of_file true false = omega arith
    of_file false dir = omega arith

-- write, when the first writev takes all that is in the buffer.
write-all :
    (c : Conn) (w : Server) (n : ℕ) (keep : Bool)
    → c.linger ≡ keep
    → 0 < c.write_idx
    → c.write_idx ≤ n
    → write c w (sent n ∷ [])
      ≡ ok (
          if keep
          then (true, reset (unmap c), call (mod_fd c.sockfd epollin) w)
          else (false, unmap c, call (mod_fd c.sockfd epollin) w))
unfolding write write_loop
write-all c w n keep e some_byte le =
    let not_empty : (c.write_idx == 0) ≡ false = ground (arith, some_byte) in
    let enough : leb (c.write_idx - n) (0 + n) ≡ true = ground (arith, le) in
    rw (not_empty, enough)
      (ap
        (λ b. ok (
          if b
          then (true, reset (unmap c), call (mod_fd c.sockfd epollin) w)
          else (false, unmap c, call (mod_fd c.sockfd epollin) w)))
        e)

-- What stands in the buffer is what its bytes are.
bytes_from-Reads :
    (l : List ℕ) (buf : Bytes) (at : ℕ) → Reads buf at l → bytes_from buf at (length l) ≡ l
bytes_from-Reads [] buf at v = refl
bytes_from-Reads (c ∷ l) buf at v =
    ap (λ x. x ∷ bytes_from buf (at + 1) (length l)) v.0
    ∙ ap (λ r. c ∷ r) (bytes_from-Reads l buf (at + 1) v.1)

append_nil : (l : List ℕ) → l ++ [] ≡ l
append_nil [] = refl
append_nil (c ∷ l) = ap (λ r. c ∷ r) (append_nil l)

-- The segments behind the headers are the file.
body_of-bytes :
    (buf : Bytes) (o : Option FileStat) (m : Option (List ℕ))
    → IsMapped o m
    → iv_bytes buf (body_of (mapping_of m) o) ≡ file_bytes o m
body_of-bytes buf none m h = refl
body_of-bytes buf (some st) none h = absurd h
body_of-bytes buf (some st) (some bytes) h = of_file st.others_read st.is_dir
  where
    of_file :
        (may_read dir : Bool)
        → iv_bytes buf
            (if may_read then (if dir then [] else file (mapped bytes) st.size ∷ []) else [])
          ≡ (if may_read then (if dir then [] else bytes) else [])
    of_file true true = refl
    of_file true false = append_nil (take st.size bytes) ∙ take-all st.size bytes (omega (arith, h))
    of_file false dir = refl

-- All of the answer goes to writev.
Ready-bytes :
    (fs : FileSystem) (fd : Option ℕ) (q : Asked) (c : Conn)
    → IsMapped (stat_of fs q) (fs.map (file_of (b'/' ∷ q.path)))
    → Ready fs (b'/' ∷ q.path) fd (keeps q) c
    → iv_bytes c.write_buf c.iv ≡ answer_to fs q
Ready-bytes fs fd q c h ready =
    let text = answer_text (keeps q) (stat_of fs q) in
    let bytes = fs.map (file_of (b'/' ∷ q.path)) in
    ap (iv_bytes c.write_buf) ready.iv
    ∙ ap (λ l. l ++ iv_bytes c.write_buf (body_of (mapping_of bytes) (stat_of fs q)))
        (bytes_from-Reads text c.write_buf 0 ready.text)
    ∙ ap (λ l. text ++ l) (body_of-bytes c.write_buf (stat_of fs q) bytes h)

-- What a turn leaves: the answer was sent, and if the connection stays, it is as good as new.
abbrev Turned : FileSystem → Option ℕ → Asked → List ℕ × Bool × Conn × Server → Type 0
Turned fs fd q (answer, stays, c, w) =
    (answer ≡ answer_to fs q) × (stays ≡ keeps q) × (keeps q ≡ true → IsFresh fd c)

turn-reset :
    (fs : FileSystem) (d : Conn) (w : Server) (q : Asked)
    → IsAsked fs q
    → Yields (Turned fs d.sockfd q) (turn fs (reset d) w q)
unfolding unmap
turn-reset fs d w q h =
    let text = answer_text (keeps q) (stat_of fs q) in
    let bytes = file_bytes (stat_of fs q) (fs.map (file_of (b'/' ∷ q.path))) in
    Yields-bind
      (request-Answered fs d w q.path q.lines q.chunks h.path h.lines h.chunks h.fits h.sized)
      λ r (ready, watched).
        Yields-ok _
          (write-all r.0 r.1 q.taken (keeps q) ready.linger
            (omega (arith, ready.size, some_text (keeps q) (stat_of fs q)))
            (omega (arith, ready.size, h.taken, length-append text bytes)))
          (by_keep r.0 r.1 (keeps q) refl ready)
  where
    by_answer :
        (c : Conn) (w : Server) (keep : Bool)
        → keeps q ≡ keep
        → Ready fs (b'/' ∷ q.path) d.sockfd (keeps q) c
        → (answer : List ℕ) → answer ≡ answer_to fs q
        → Yields (Turned fs d.sockfd q) (
            ok (
              if keep
              then (true, reset (unmap c), call (mod_fd c.sockfd epollin) w)
              else (false, unmap c, call (mod_fd c.sockfd epollin) w))
            >>= λ (stays, c', w'). ok (answer, stays, c', w'))
    by_answer c w true e ready answer all = yields (all, sym e, λ _. (unmap c, refl, ready.sockfd))
    by_answer c w false e ready answer all = yields (all, sym e, λ t. absurd (cc (e, t)))

    by_keep :
        (c : Conn) (w : Server) (keep : Bool)
        → keeps q ≡ keep
        → Ready fs (b'/' ∷ q.path) d.sockfd (keeps q) c
        → Yields (Turned fs d.sockfd q) (
            ok (
              if keep
              then (true, reset (unmap c), call (mod_fd c.sockfd epollin) w)
              else (false, unmap c, call (mod_fd c.sockfd epollin) w))
            >>= λ (stays, c', w'). ok (take q.taken (iv_bytes c.write_buf c.iv), stays, c', w'))
    by_keep c w keep e ready =
        let all =
          ap (take q.taken) (Ready-bytes fs d.sockfd q c h.mapping ready)
          ∙ take-all q.taken (answer_to fs q) (omega (arith, h.taken)) in
        by_answer c w keep e ready (take q.taken (iv_bytes c.write_buf c.iv)) all

-- What a session leaves: the answers were sent, and if all requests keep the connection, it is as good as
-- new.
abbrev pub AllServed :
    FileSystem → Option ℕ → List Asked → List (List ℕ) × Bool × Conn × Server → Type 0
AllServed fs fd asked (answers, stays, c, w) =
    (answers ≡ answers_to fs asked) × (stays ≡ all_keep asked) × (stays ≡ true → IsFresh fd c)

session-reset :
    (fs : FileSystem) (fd : Option ℕ) (asked : List Asked) (d : Conn) (w : Server)
    → d.sockfd ≡ fd
    → All (IsAsked fs) asked
    → Yields (AllServed fs fd asked) (session fs (reset d) w asked)
session-reset fs fd [] d w same h = yields (refl, refl, λ _. (d, refl, same))
session-reset fs fd (q ∷ rest) d w same h =
    Yields-bind
      (subst (λ x. Yields (Turned fs x q) (turn fs (reset d) w q)) same (turn-reset fs d w q h.0))
      λ (answer, stays, c, w') (all, kept, fresh).
        by_write answer stays c w' all kept fresh
          (λ d' same'. session-reset fs fd rest d' w' same' h.1)
  where
    by_write :
        (answer : List ℕ) (stays : Bool) (c : Conn) (w' : Server)
        → answer ≡ answer_to fs q
        → stays ≡ keeps q
        → (keeps q ≡ true → IsFresh fd c)
        → ((d' : Conn)
            → d'.sockfd ≡ fd
            → Yields (AllServed fs fd rest) (session fs (reset d') w' rest))
        → Yields (AllServed fs fd (q ∷ rest)) (
            if stays
            then (session fs c w' rest >>= λ (answers, stays', c'', w'').
                ok (answer ∷ answers, stays', c'', w''))
            else ok (answer ∷ [], false, c, w'))
    by_write answer true c w' all kept fresh later =
        let (d', new, same') = fresh (sym kept) in
        Yields-bind
          (subst (λ x. Yields (AllServed fs fd rest) (session fs x w' rest)) (sym new)
            (later d' same'))
          λ (answers, stays', c'', w'') (others, stayed, last). yields (
            ap (λ a. a ∷ answers) all
                ∙ ap (λ l. answer_to fs q ∷ l) others
                ∙ ap (λ b. if b then answer_to fs q ∷ answers_to fs rest else answer_to fs q ∷ [])
                    kept,
            stayed ∙ ap (λ b. if b then all_keep rest else false) kept,
            last,
          )
    by_write answer false c w' all kept fresh later = yields (
      ap (λ a. a ∷ []) all
          ∙ ap (λ b. if b then answer_to fs q ∷ answers_to fs rest else answer_to fs q ∷ []) kept,
      ap (λ b. if b then all_keep rest else false) kept,
      λ t. absurd (cc t),
    )

-- A client opens a connection and sends GET requests on it, each when the one before is answered and each to
-- be read in one call of read, in whatever pieces recv gives it there. Then what is written for each of
-- them is exactly its answer: a status line, headers, and the file behind doc_root or the page that says why
-- there is none. That goes on as long as the requests ask to keep the connection, and the first that does
-- not is still answered. If all ask to keep it, the connection is as new at the end; otherwise write
-- reports that it has to be closed. Each target is a slash and bytes that are no blanks, the header lines
-- are not empty and not the bare name "Content-Length" in any letter case, none of these has a NUL, a
-- carriage return or a line feed, each request is shorter than the read buffer, each file that stat finds is
-- not empty, its size is an int, mmap gives as many bytes, and the first writev of each answer takes all of
-- it.
pub session-AllServed :
    (fs : FileSystem) (fd : ℕ) (c : Conn) (w : Server) (asked : List Asked)
    → All (IsAsked fs) asked
    → Yields (AllServed fs (some fd) asked) (session fs (init fd c w).0 (init fd c w).1 asked)
unfolding init
session-AllServed fs fd c w asked h =
    session-reset fs (some fd) asked (record c { sockfd = some fd }) _ refl h
