-- ===== src/HttpConn/Reply/Asked.antt =====
-- Sessions of requests on a connection of http_conn.cpp, and what they are to leave.
use linux_learning.Prelude.{
  ℕ, zero, suc, ◌+◌, ◌<◌, ◌≡◌, All, Bool, true, false, Option, none, some, List, [], ◌∷◌, ◌++◌,
  length, take, if◌then◌else◌, ok, thrown, ◌>>=◌, Run,
}
use linux_learning.CString.{Bytes}
use linux_learning.HttpConn.{
  Conn, Server, FileStat, Segment, headers, file, unmapped, failed, mapped, reset, read,
  read_buffer_size,
}
use linux_learning.HttpConn.Request.{FileSystem}
use linux_learning.HttpConn.Request.HeaderLines.{IsHeader, lingers}
use linux_learning.HttpConn.Request.Found.{file_of}
use linux_learning.HttpConn.Request.Whole.{IsTargetByte, request}
use linux_learning.HttpConn.Request.Arrives.{arrived, all_bytes}
use linux_learning.HttpConn.Response.Pages.{IsSized, answer_text}
use linux_learning.HttpConn.Reply.{sent, write, process}

-- A request, the pieces in which recv gives it, and how many bytes of its answer the first writev takes.
pub record Asked : Type 0 where
  pub path : List ℕ
  pub lines : List (List ℕ)
  pub chunks : List (ℕ × List ℕ)
  pub taken : ℕ

abbrev pub keeps : Asked → Bool
keeps q = lingers false q.lines

abbrev pub stat_of : FileSystem → Asked → Option FileStat
stat_of fs q = fs.stat (file_of (b'/' ∷ q.path))

-- The bytes of a file that is sent, for what stat and mmap report.
abbrev pub file_bytes : Option FileStat → Option (List ℕ) → List ℕ
file_bytes none bytes = []
file_bytes (some st) none = []
file_bytes (some st) (some bytes) = if st.others_read then (if st.is_dir then [] else bytes) else []

-- What the client is to get: a status line, headers, and a page or the file.
abbrev pub answer_to : FileSystem → Asked → List ℕ
answer_to fs q =
    answer_text (keeps q) (stat_of fs q)
    ++ file_bytes (stat_of fs q) (fs.map (file_of (b'/' ∷ q.path)))

-- mmap gives as many bytes as stat says there are.
abbrev pub IsMapped : Option FileStat → Option (List ℕ) → Type 0
IsMapped none bytes = Unit
IsMapped (some st) none = ⊥
IsMapped (some st) (some bytes) = length bytes ≡ st.size

-- The request is well formed and fits the buffer, and the first writev takes the whole answer.
pub record IsAsked (fs : FileSystem) (q : Asked) : Type 0 where
  pub path : All IsTargetByte q.path
  pub lines : All IsHeader q.lines
  pub chunks : all_bytes q.chunks ≡ request q.path q.lines
  pub fits : length (request q.path q.lines) < read_buffer_size
  pub sized : IsSized (stat_of fs q)
  pub mapping : IsMapped (stat_of fs q) (fs.map (file_of (b'/' ∷ q.path)))
  pub taken : q.taken ≡ length (answer_to fs q)

-- The bytes of a buffer from `at` on.
abbrev pub bytes_from : Bytes → ℕ → ℕ → List ℕ
bytes_from buf at zero = []
bytes_from buf at (suc n) = buf at ∷ bytes_from buf (at + 1) n

-- The bytes that the segments stand for, of which writev takes the first ones.
abbrev pub segment_bytes : Bytes → Segment → List ℕ
segment_bytes buf (headers n) = bytes_from buf 0 n
segment_bytes buf (file (mapped bytes) n) = take n bytes
segment_bytes buf (file unmapped n) = []
segment_bytes buf (file failed n) = []

abbrev pub iv_bytes : Bytes → List Segment → List ℕ
iv_bytes buf [] = []
iv_bytes buf (s ∷ iv) = segment_bytes buf s ++ iv_bytes buf iv

-- What the events on a connection do for a request: read, process and write. The first of the results is
-- what writev takes.
abbrev pub turn : FileSystem → Conn → Server → Asked → Run (List ℕ × Bool × Conn × Server)
turn fs c w q = do
  (c', w') ← read c (arrived q.chunks) >>= λ r. if r.0 then process fs r.1 w else thrown
  (stays, c'', w'') ← write c' w' (sent q.taken ∷ [])
  ok (take q.taken (iv_bytes c'.write_buf c'.iv), stays, c'', w'')

-- The turns of the requests, up to the one after which write has the connection closed.
abbrev pub session :
    FileSystem → Conn → Server → List Asked → Run (List (List ℕ) × Bool × Conn × Server)
session fs c w [] = ok ([], true, c, w)
session fs c w (q ∷ rest) = do
  (answer, stays, c', w') ← turn fs c w q
  let more : Run (List (List ℕ) × Bool × Conn × Server) = do
    (answers, stays', c'', w'') ← session fs c' w' rest
    ok (answer ∷ answers, stays', c'', w'')
  if stays then more else ok (answer ∷ [], false, c', w')

-- The answers, up to the one for the first request that does not keep the connection.
abbrev pub answers_to : FileSystem → List Asked → List (List ℕ)
answers_to fs [] = []
answers_to fs (q ∷ rest) =
    let more = answers_to fs rest in if keeps q then answer_to fs q ∷ more else answer_to fs q ∷ []

abbrev pub all_keep : List Asked → Bool
all_keep [] = true
all_keep (q ∷ rest) = let more = all_keep rest in if keeps q then more else false

-- The connection is as init leaves it.
abbrev pub IsFresh : Option ℕ → Conn → Type 0
IsFresh fd c = (d : Conn) × (c ≡ reset d) × (d.sockfd ≡ fd)
