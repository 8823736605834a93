-- ===== src/HttpConn/Reply/Answered.antt =====
-- A request for a page, from reading to process in http_conn.cpp.
use mathlib.Core.Path.{subst}
use linux_learning.Prelude.{
  ℕ, ◌<◌, ◌≡◌, refl, sym, ap, ◌∙◌, All, Bool, true, false, Option, none, some, List, [], ◌∷◌,
  length, if◌then◌else◌, ok, thrown, ◌>>=◌, Run, Yields, yields, Yields-bind, bind_assoc, bind-ext,
}
use linux_learning.CString.Spells.{Reads}
use linux_learning.HttpConn.{
  Conn, Server, HttpCode, FileStat, Mapping, headers, file, bad_request, forbidden_request,
  file_request, epollout, mod_fd, call, reset, read, read_buffer_size,
}
use linux_learning.HttpConn.Request.{FileSystem, process_read}
use linux_learning.HttpConn.Request.HeaderLines.{IsHeader, lingers}
use linux_learning.HttpConn.Request.Found.{Served, file_of, code_of, mapping_of}
use linux_learning.HttpConn.Request.Whole.{IsTargetByte, request}
use linux_learning.HttpConn.Request.Arrives.{arrived, all_bytes, request-Served}
use linux_learning.HttpConn.Response.{process_write}
use linux_learning.HttpConn.Response.Pages.{IsSized, answer_text, body_of, process_write-Answer}
use linux_learning.HttpConn.Reply.{answer, process}

-- The connection is ready to send the answer: the page or the headers are in the buffer, the segments are
-- those bytes and the file's.
pub record Ready (fs : FileSystem) (target : List ℕ) (fd : Option ℕ) (keep : Bool) (c : Conn)
    : Type 0 where
  pub sockfd : c.sockfd ≡ fd
  pub linger : c.linger ≡ keep
  pub text : Reads c.write_buf 0 (answer_text keep (fs.stat (file_of target)))
  pub size : c.write_idx ≡ length (answer_text keep (fs.stat (file_of target)))
  pub iv :
      c.iv
      ≡ headers (length (answer_text keep (fs.stat (file_of target))))
        ∷ body_of (mapping_of (fs.map (file_of target))) (fs.stat (file_of target))

-- The connection is ready, and epoll is asked to report when the socket can be written to.
abbrev pub Answered : FileSystem → List ℕ → Option ℕ → Bool → Server → Conn × Server → Type 0
Answered fs target fd keep w (c, w') =
    Ready fs target fd keep c × (w' ≡ call (mod_fd fd epollout) w)

-- Only a file has a segment of its own.
body_of-same :
    (bytes bytes' : Mapping) (o : Option FileStat)
    → (code_of o ≡ file_request → bytes ≡ bytes')
    → body_of bytes o ≡ body_of bytes' o
body_of-same bytes bytes' none e = refl
body_of-same bytes bytes' (some st) e = of_file st.others_read st.is_dir e
  where
    of_file :
        (may_read dir : Bool)
        → ((if may_read then (if dir then bad_request else file_request) else forbidden_request)
              ≡ file_request
            → bytes ≡ bytes')
        → (if may_read then (if dir then [] else file bytes st.size ∷ []) else [])
          ≡ (if may_read then (if dir then [] else file bytes' st.size ∷ []) else [])
    of_file true true e = refl
    of_file true false e = ap (λ m. file m st.size ∷ []) (e refl)
    of_file false dir e = refl

-- What process does behind a good process_write.
answer-good :
    (c : Conn) (w : Server) (o : Option FileStat)
    → (process_write c (code_of o)).0 ≡ true
    → answer c w (code_of o) ≡ (
      (process_write c (code_of o)).1,
      call (mod_fd (process_write c (code_of o)).1.sockfd epollout) w,
    )
unfolding answer
answer-good c w none good = rw good refl
answer-good c w (some st) good = of_file st.others_read st.is_dir good
  where
    of_file :
        (may_read dir : Bool)
        → let code =
            if may_read then (if dir then bad_request else file_request) else forbidden_request in
          (process_write c code).0 ≡ true
          → answer c w code
            ≡ ((process_write c code).1, call (mod_fd (process_write c code).1.sockfd epollout) w)
    of_file true true good = rw good refl
    of_file true false good = rw good refl
    of_file false dir good = rw good refl

answer-Answered :
    (fs : FileSystem) (target : List ℕ) (fd : Option ℕ) (keep : Bool) (c : Conn) (w : Server)
    (code : HttpCode)
    → IsSized (fs.stat (file_of target))
    → Served fs target fd keep (code, c)
    → Answered fs target fd keep w (answer c w code)
answer-Answered fs target fd keep c w code sized s =
    let o = fs.stat (file_of target) in
    let a = process_write-Answer c o s.written sized (λ h. s.stat (s.code ∙ h)) in
    let e = ap (answer c w) s.code ∙ answer-good c w o a.good in
    subst (Answered fs target fd keep w) (sym e) (
      record {
        sockfd = a.holds.sockfd ∙ s.sockfd;
        linger = a.holds.linger ∙ s.linger;
        text =
            subst (λ l. Reads (process_write c (code_of o)).1.write_buf 0 (answer_text l o))
              s.linger a.holds.buf;
        size = a.holds.size ∙ ap (λ l. length (answer_text l o)) s.linger;
        iv =
            a.iv
            ∙ ap (λ l. headers (length (answer_text l o)) ∷ body_of c.file_address o) s.linger
            ∙ ap (λ l. headers (length (answer_text keep o)) ∷ l)
                (body_of-same c.file_address _ o (λ h. s.file (s.code ∙ h)));
      },
      ap (λ x. call (mod_fd x epollout) w) (a.holds.sockfd ∙ s.sockfd),
    )

-- A GET request arrives on a connection that was reset and is read in one call of read, in whatever
-- pieces recv gives it there. Its target is a slash and bytes that are no blanks, its header lines are
-- not empty and not the bare name "Content-Length" in any letter case, none of these has a NUL, a
-- carriage return or a line feed, and the request does not fill the read buffer. Then read and process
-- answer it: with the file behind doc_root, its path cut to filename_len - 1 bytes, behind a status
-- line and headers, or with the page that says that there is none, that it may not be read or that it
-- is a directory. The headers say that the connection stays exactly if a header line of the request
-- asked for it, and epoll is asked to report when the socket can be written to. If stat finds the file,
-- it is not empty and its size is an int.
pub request-Answered :
    (fs : FileSystem) (c : Conn) (w : Server) (path : List ℕ) (lines : List (List ℕ))
    (chunks : List (ℕ × List ℕ))
    → All IsTargetByte path
    → All IsHeader lines
    → all_bytes chunks ≡ request path lines
    → length (request path lines) < read_buffer_size
    → IsSized (fs.stat (file_of (b'/' ∷ path)))
    → Yields
        (Answered fs (b'/' ∷ path) c.sockfd (lingers false lines) w)
        (read (reset c) (arrived chunks) >>= λ r. if r.0 then process fs r.1 w else thrown)
unfolding process
request-Answered fs c w path lines chunks h hs e lt sized =
    subst (Yields (Answered fs (b'/' ∷ path) c.sockfd (lingers false lines) w))
      (bind_assoc (read (reset c) (arrived chunks))
          (λ r. if r.0 then process_read fs r.1 else thrown) answered
        ∙ bind-ext (read (reset c) (arrived chunks)) _ _ (λ r. by_outcome r.0 r.1))
      (Yields-bind (request-Served fs c path lines chunks h hs e lt) λ r s.
        yields (answer-Answered fs (b'/' ∷ path) c.sockfd (lingers false lines) r.1 w r.0 sized s))
  where
    answered : HttpCode × Conn → Run (Conn × Server)
    answered r = ok (answer r.1 w r.0)

    by_outcome :
        (good : Bool) (d : Conn)
        → (if good then process_read fs d else thrown) >>= answered
          ≡ (if good then process fs d w else thrown)
    by_outcome true d = refl
    by_outcome false d = refl
