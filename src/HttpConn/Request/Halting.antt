-- ===== src/HttpConn/Request/Halting.antt =====
-- The functions of http_conn.cpp that handle a line come to an end.
use linux_learning.Prelude.{
  ℕ, zero, suc, ◌+◌, ◌-◌, ◌≡◌, refl, Option, none, some, List, [], ◌∷◌, ◌==◌, arith, if◌then◌else◌,
  ok, fault, ltb, ge_add, ℤ, pos, negsuc, Halts, returns, faults, Halts-bind, Halts-option,
  Halts-list, Halts-if,
}
use linux_learning.CString.{
  Bytes, c_str, string_in, codes, strpbrk, strspn, strchr, strcasecmp, strncasecmp,
}
use linux_learning.HttpConn.{
  Conn, HttpCode, header, read_buffer_size, no_request, get_request, bad_request,
}
use linux_learning.HttpConn.Request.{
  text_at, put_nul, parse_request_line, check_version, check_url, parse_headers, header_value,
  parse_content, end_body,
}

-- The positions that bound the loop have not moved, and the socket is the same.
abbrev pub SameEnds : Conn → HttpCode × Conn → Type 0
SameEnds c r =
    (r.1.read_idx ≡ c.read_idx) × (r.1.checked_idx ≡ c.checked_idx) × (r.1.sockfd ≡ c.sockfd)

string_in-Halts : (room : ℕ) (buf : Bytes) (at : ℕ) → Halts (λ _. Unit {0}) (string_in room buf at)
unfolding string_in
string_in-Halts zero buf at = faults
string_in-Halts (suc room) buf at =
    Halts-if (buf at == 0) (returns tt)
      (Halts-bind (string_in-Halts room buf (at + 1)) λ s _. returns tt)

pub text_at-Halts : (c : Conn) (at : ℕ) → Halts (λ _. Unit {0}) (text_at c at)
unfolding c_str
text_at-Halts c at = string_in-Halts (read_buffer_size - at) c.read_buf at

check_url-Halts : (c : Conn) (at : ℕ) → Halts (SameEnds c) (check_url c at)
unfolding check_url
check_url-Halts c at = Halts-bind (text_at-Halts c at) λ u _.
    Halts-if (strncasecmp u (codes "http://") 7)
      (Halts-bind (text_at-Halts c (at + 7)) λ path _. returns (found (strchr path b'/')))
      (returns (first u))
  where
    found :
        (o : Option ℕ)
        → SameEnds c (elim o [
          | none ↦ (bad_request, record c { url = none })
          | some i ↦ (no_request, record c { url = some (at + 7 + i); check_state = header })
        ])
    found none = (refl, refl, refl)
    found (some i) = (refl, refl, refl)

    first :
        (u : List ℕ)
        → SameEnds c (elim u [
          | [] ↦ (bad_request, c)
          | d ∷ _ ↦
              if d == b'/'
              then (no_request, record c { url = some at; check_state = header })
              else (bad_request, c)
        ])
    first [] = (refl, refl, refl)
    first (d ∷ u) = (ground arith, ground arith, ground arith)

check_version-Halts : (c : Conn) (at : ℕ) → Halts (SameEnds c) (check_version c at)
unfolding check_version
check_version-Halts c at = Halts-bind (text_at-Halts c at) λ u _.
    Halts-option (strpbrk u) (returns (refl, refl, refl)) λ j.
      Halts-bind (text_at-Halts (put_nul c (at + j)) (at + j + 1)) λ v _.
        Halts-bind (text_at-Halts (put_nul c (at + j)) (at + j + 1 + strspn v)) λ version _.
          Halts-if (strcasecmp version (codes "HTTP/1.1")) (check_url-Halts _ at)
            (returns (refl, refl, refl))

pub parse_request_line-Halts :
    (c : Conn) (text : ℕ) → Halts (SameEnds c) (parse_request_line c text)
unfolding parse_request_line
parse_request_line-Halts c text = Halts-bind (text_at-Halts c text) λ s _.
    Halts-option (strpbrk s) (returns (refl, refl, refl)) λ i.
      Halts-bind (text_at-Halts (put_nul c (text + i)) text) λ name _.
        Halts-bind (text_at-Halts (put_nul c (text + i)) (text + i + 1)) λ u _.
          Halts-if (strcasecmp name (codes "GET")) (check_version-Halts _ _)
            (returns (refl, refl, refl))

header_value-Halts : (c : Conn) (at : ℕ) → Halts (λ _. Unit {0}) (header_value c at)
unfolding header_value
header_value-Halts c at =
    Halts-bind (text_at-Halts c at)
      λ s _. Halts-bind (text_at-Halts c (at + strspn s)) λ v _. returns tt

pub parse_headers-Halts : (c : Conn) (text : ℕ) → Halts (SameEnds c) (parse_headers c text)
unfolding parse_headers
parse_headers-Halts c text = Halts-bind (text_at-Halts c text) λ s _.
    Halts-list s (returns (ground arith, ground arith, ground arith)) λ d rest.
      Halts-if (strncasecmp s (codes "Connection:") 11)
        (Halts-bind (header_value-Halts c (text + 11))
          λ v _. returns (ground arith, ground arith, ground arith))
        (Halts-if (strncasecmp s (codes "Content-Length") 15)
          (Halts-bind (header_value-Halts c (text + 15)) λ v _. returns (refl, refl, refl))
          (Halts-if (strncasecmp s (codes "Host:") 5)
            (Halts-bind (header_value-Halts c (text + 5)) λ v _. returns (refl, refl, refl))
            (returns (refl, refl, refl))))

end_body-Halts : (c : Conn) (text : ℕ) → Halts (λ d. SameEnds c (get_request, d)) (end_body c text)
unfolding end_body
end_body-Halts c text = by_sign c.content_length
  where
    by_sign :
        (n : ℤ)
        → Halts
            (λ d. SameEnds c (get_request, d))
            (elim n [
              | pos n ↦ if ltb (text + n) read_buffer_size then ok (put_nul c (text + n)) else fault
              | negsuc n ↦ if ltb n text then ok (put_nul c (text - suc n)) else fault
            ])
    by_sign (pos n) = Halts-if (ltb (text + n) read_buffer_size) (returns (refl, refl, refl)) faults
    by_sign (negsuc n) = Halts-if (ltb n text) (returns (refl, refl, refl)) faults

pub parse_content-Halts : (c : Conn) (text : ℕ) → Halts (SameEnds c) (parse_content c text)
unfolding parse_content
parse_content-Halts c text =
    Halts-if (ge_add c.read_idx c.content_length c.checked_idx)
      (Halts-bind (end_body-Halts c text) λ d same. returns same) (returns (refl, refl, refl))
