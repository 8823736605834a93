-- ===== src/WritevResponse/Answers.antt =====
-- What the client of writev_http_response.cpp gets.
use linux_learning.Prelude.{
  ℕ, zero, suc, ◌+◌, ◌≤◌, ◌<◌, ◌≡◌, refl, ap, ◌∙◌, arith, true, false, Bool-cases, inl, inr, Option,
  none, some, List, [], ◌∷◌, ◌++◌, ltb, if◌then◌else◌, length, take, ok, fault,
}
use linux_learning.CString.{codes}
use linux_learning.HttpConn.Response.{decimal, decimal_loop, crlf}
use linux_learning.WritevResponse.{
  missing, is_directory, no_permission, readable, zeros, read_over, read_file, load, snprintf,
  good_header, bad_header, release, file_part, answer, after_load, respond,
}

-- The answer that is meant for a file.
abbrev pub whole_answer : List ℕ → List ℕ
whole_answer content =
    codes "HTTP/1.1 200 OK"
    ++ crlf
    ++ codes "Content-Length: "
    ++ decimal (length content)
    ++ crlf
    ++ crlf
    ++ content

take-read_over :
    (k : ℕ) (content buf : List ℕ)
    → length content ≤ k
    → length content ≤ length buf
    → take (length content) (read_over (take k content) buf) ≡ content
unfolding read_over
take-read_over k [] buf le fits = refl
take-read_over zero (c ∷ content) buf le fits = absurd (omega (arith, le))
take-read_over (suc k) (c ∷ content) [] le fits = absurd (omega (arith, fits))
take-read_over (suc k) (c ∷ content) (_ ∷ buf) le fits =
    ap (λ l. c ∷ l) (take-read_over k content buf (omega (arith, le)) (omega (arith, fits)))

decimal-digit : (n : ℕ) → n < 10 → decimal n ≡ (48 + n) ∷ []
unfolding decimal decimal_loop
decimal-digit n lt = let digit : ltb n 10 ≡ true = ground arith in rw digit refl

good_header-digit :
    (n : ℕ)
    → n < 10
    → good_header n
      ≡ codes "HTTP/1.1 200 OK" ++ crlf ++ codes "Content-Length: " ++ decimal n ++ crlf ++ crlf
unfolding good_header snprintf
good_header-digit n lt = rw (decimal-digit n lt) refl

load-small :
    (size : ℕ) (content : Option (List ℕ))
    → size < 8
    → load (readable size content) ≡ ok (read_file content)
unfolding load
load-small size content lt = let room : ltb 8 (size + 1) ≡ false = ground arith in rw room refl

load-long : (size : ℕ) (content : Option (List ℕ)) → 8 ≤ size → load (readable size content) ≡ fault
unfolding load
load-long size content le = let past : ltb 8 (size + 1) ≡ true = ground arith in rw past refl

-- The file is sent behind the header.
answer-whole :
    (content : List ℕ)
    → length content < 8
    → answer (readable (length content) (some content)) (read_file (some content))
      ≡ (whole_answer content, ok tt)
unfolding answer read_file release file_part zeros
answer-whole content lt =
    let n : length content < 10 = omega (arith, lt) in
    let sent = take-read_over 7 content (zeros 8) (omega (arith, lt)) (omega (arith, lt)) in
    ap (λ l. (l, ok tt))
      (ap (λ l. good_header (length content) ++ l) sent
        ∙ ap (λ h. h ++ content) (good_header-digit (length content) n))

-- What main does for each outcome of stat, open and read. A file is sent whole, behind its length, when it
-- has at most seven bytes; on a longer one memset writes past the end of the buffer before anything is
-- sent. A file that cannot be read gets an empty line in place of the status 500, and so does what is no
-- readable file, for which main then deletes a pointer that was never set.
pub respond-Answers :
    (content : List ℕ) (size : ℕ)
    → size < 8
    → (respond (readable (length content) (some content))
        ≡ (if ltb (length content) 8 then (whole_answer content, ok tt) else ([], fault)))
      × (respond (readable size none) ≡ (crlf, ok tt))
      × (respond missing ≡ (crlf, fault))
      × (respond is_directory ≡ (crlf, fault))
      × (respond no_permission ≡ (crlf, fault))
unfolding respond after_load load read_file answer release bad_header snprintf
respond-Answers content size lt = (
  elim (Bool-cases (ltb (length content) 8)) [
    | inl fits ↦
        let file = readable (length content) (some content) in
        rw fits (
          ap (after_load file) (load-small (length content) (some content) (ground arith))
          ∙ answer-whole content (ground arith))
    | inr long ↦
        let file = readable (length content) (some content) in
        rw long (ap (after_load file) (load-long (length content) (some content) (ground arith)))
  ],
  ap (after_load (readable size none)) (load-small size none lt),
  refl,
  refl,
  refl,
)
