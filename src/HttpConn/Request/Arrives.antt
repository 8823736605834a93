-- ===== src/HttpConn/Request/Arrives.antt =====
-- From reading to process_read in http_conn.cpp.
use mathlib.Core.Path.{subst}
use linux_learning.Prelude.{
  ℕ, ◌+◌, ◌<◌, ◌≡◌, refl, ap, ◌∙◌, All, arith, true, false, List, [], ◌∷◌, ◌++◌, ◌==◌, ltb, leb,
  if◌then◌else◌, length, length-append, ok, thrown, ◌>>=◌, Yields, Yields-ok,
}
use linux_learning.CString.Spells.{Reads}
use linux_learning.HttpConn.{
  Conn, Received, got, would_block, store_bytes, read_loop, read, reset, read_buffer_size,
}
use linux_learning.HttpConn.Stored.{store_bytes-append, store_bytes-Reads}
use linux_learning.HttpConn.Request.{FileSystem, process_read}
use linux_learning.HttpConn.Request.HeaderLines.{IsHeader, lingers}
use linux_learning.HttpConn.Request.Found.{Served}
use linux_learning.HttpConn.Request.Whole.{IsTargetByte, request, process_read-Served}

-- What recv reports for data that comes in these pieces, each of a byte and some more.
abbrev pub arrived : List (ℕ × List ℕ) → List Received
arrived [] = would_block ∷ []
arrived ((b, bytes) ∷ rest) = got (b ∷ bytes) ∷ arrived rest

abbrev pub all_bytes : List (ℕ × List ℕ) → List ℕ
all_bytes [] = []
all_bytes ((b, bytes) ∷ rest) = (b ∷ bytes) ++ all_bytes rest

-- read takes all that comes in, as long as it does not fill the buffer.
read_loop-arrived :
    (chunks : List (ℕ × List ℕ)) (c : Conn)
    → c.read_idx + length (all_bytes chunks) < read_buffer_size
    → read_loop c (arrived chunks)
      ≡ ok (
        true,
        record c {
          read_buf = store_bytes c.read_buf c.read_idx (all_bytes chunks);
          read_idx = c.read_idx + length (all_bytes chunks);
        },
      )
unfolding read_loop store_bytes
read_loop-arrived [] c lt =
    let room : leb read_buffer_size c.read_idx ≡ false = ground (arith, lt) in
    rw room (ap (λ n. ok (true, record c { read_idx = n })) (omega arith))
read_loop-arrived ((b, bytes) ∷ rest) c lt =
    let size = length-append (b ∷ bytes) (all_bytes rest) in
    let room : leb read_buffer_size c.read_idx ≡ false = ground (arith, lt) in
    let inside : ltb read_buffer_size (c.read_idx + length (b ∷ bytes)) ≡ false =
      ground (arith, lt, size) in
    let some_byte : (length (b ∷ bytes) == 0) ≡ false = ground arith in
    rw (room, some_byte, inside)
      (read_loop-arrived rest
          (record c {
            read_buf = store_bytes c.read_buf c.read_idx (b ∷ bytes);
            read_idx = c.read_idx + length (b ∷ bytes);
          })
          (omega (arith, lt, size))
        ∙ ap
            (λ buf. ok (
              true,
              record c {
                read_buf = buf;
                read_idx = c.read_idx + length (b ∷ bytes) + length (all_bytes rest);
              },
            ))
            (store_bytes-append (b ∷ bytes) (all_bytes rest) c.read_buf c.read_idx)
        ∙ ap
            (λ n. ok (
              true,
              record c {
                read_buf = store_bytes c.read_buf c.read_idx (all_bytes ((b, bytes) ∷ rest));
                read_idx = n;
              },
            ))
            (omega (arith, size)))

-- A request for a target of a slash and a path without blanks, that arrives on a connection that was reset,
-- in whatever pieces, and that does not fill the buffer, is read whole and not refused; the file behind
-- doc_root is looked up, and the result is the one for what the file system says: the file with its bytes,
-- or that there is none, that it may not be read, or that it is a directory.
pub request-Served :
    (fs : FileSystem) (c : Conn) (path : List ℕ) (lines : List (List ℕ))
    (chunks : List (ℕ × List ℕ))
    → All IsTargetByte path
    → All IsHeader lines
    → all_bytes chunks ≡ request path lines
    → length (request path lines) < read_buffer_size
    → Yields
        (Served fs (b'/' ∷ path) c.sockfd (lingers false lines))
        (read (reset c) (arrived chunks) >>= λ r. if r.0 then process_read fs r.1 else thrown)
unfolding read reset
request-Served fs c path lines chunks h hs e lt =
    let small : 0 + length (all_bytes chunks) < read_buffer_size = omega (arith, lt, ap length e) in
    Yields-ok _ (read_loop-arrived chunks (reset c) small) (
      process_read-Served fs path lines _ h hs refl refl refl refl refl
        (subst (λ l. Reads (store_bytes (λ _. 0) 0 (all_bytes chunks)) 0 l) e
          (store_bytes-Reads (all_bytes chunks) (λ _. 0) 0))
        (omega (arith, ap length e)) (omega (arith, small)))
