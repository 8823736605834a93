-- ===== src/HttpConn/Request/HeaderLines.antt =====
-- The lines of the headers in http_conn.cpp.
use linux_learning.Prelude.{
  ℕ, ◌≡◌, refl, All, arith, Bool, true, false, ◌&&◌, List, [], ◌∷◌, if◌then◌else◌, ok, pos, Yields,
  yields, Yields-if, Yields-bind,
}
use linux_learning.CString.{codes, strcasecmp, strncasecmp}
use linux_learning.CString.Laws.{strncasecmp-prefix}
use linux_learning.HttpConn.{Conn, no_request, get_request}
use linux_learning.HttpConn.Line.Whole.{IsPlain}
use linux_learning.HttpConn.Request.{text_at, parse_headers}
use linux_learning.HttpConn.Request.Headers.{header_value-ok, value_behind}

-- A line of the headers: it is not empty, and not the bare name "Content-Length".
abbrev pub IsHeader : List ℕ → Type 0
IsHeader [] = ⊥
IsHeader (d ∷ r) = All IsPlain (d ∷ r) × (strncasecmp (d ∷ r) (codes "Content-Length") 15 ≡ false)

-- A line that asks to keep the connection.
abbrev pub keeps_alive : List ℕ → Bool
keeps_alive s =
    strncasecmp s (codes "Connection:") 11 && strcasecmp (value_behind 11 s) (codes "keep-alive")

-- What a header line leaves alone, and `m_linger` behind it.
pub record Kept (alive : Bool) (c d : Conn) : Type 0 where
  pub buf : d.read_buf ≡ c.read_buf
  pub checked : d.checked_idx ≡ c.checked_idx
  pub ends : d.read_idx ≡ c.read_idx
  pub starts : d.start_line ≡ c.start_line
  pub body : d.content_length ≡ c.content_length
  pub state : d.check_state ≡ c.check_state
  pub url : d.url ≡ c.url
  pub written : d.write_idx ≡ c.write_idx
  pub sockfd : d.sockfd ≡ c.sockfd
  pub linger : d.linger ≡ (if alive then true else c.linger)

all-Kept : (c : Conn) → Kept false c c
all-Kept c = record {
  buf = refl;
  checked = refl;
  ends = refl;
  starts = refl;
  body = refl;
  state = refl;
  url = refl;
  written = refl;
  sockfd = refl;
  linger = refl;
}

linger-Kept :
    (keep : Bool) (c : Conn) → Kept keep c (if keep then record c { linger = true } else c)
linger-Kept true c = record {
  buf = refl;
  checked = refl;
  ends = refl;
  starts = refl;
  body = refl;
  state = refl;
  url = refl;
  written = refl;
  sockfd = refl;
  linger = refl;
}
linger-Kept false c = all-Kept c

-- `m_linger` once these lines were read.
abbrev pub lingers : Bool → List (List ℕ) → Bool
lingers linger [] = linger
lingers linger (h ∷ headers) = lingers (if keeps_alive h then true else linger) headers

pub parse_headers-Kept :
    (c : Conn) (text : ℕ) (s : List ℕ)
    → text_at c text ≡ ok s
    → IsHeader s
    → Yields (λ r. (r.0 ≡ no_request) × Kept (keeps_alive s) c r.1) (parse_headers c text)
unfolding parse_headers
parse_headers-Kept c text [] e h = absurd h
parse_headers-Kept c text (d ∷ r) e h =
    let s : List ℕ = d ∷ r in
    rw e (
      Yields-if (strncasecmp s (codes "Connection:") 11)
        (λ is.
          Yields-bind
            (header_value-ok c text s 11 e
              (strncasecmp-prefix s (codes "Connection:") 11 (omega arith) is))
            λ v same.
              rw (same, is)
                (yields
                  (refl, linger-Kept (strcasecmp (value_behind 11 s) (codes "keep-alive")) c)))
        (λ isnt.
          rw (isnt, h.1)
            (Yields-if (strncasecmp s (codes "Host:") 5)
              (λ is.
                Yields-bind
                  (header_value-ok c text s 5 e
                    (strncasecmp-prefix s (codes "Host:") 5 (omega arith) is))
                  λ v _. yields (
                    refl,
                    record {
                      buf = refl;
                      checked = refl;
                      ends = refl;
                      starts = refl;
                      body = refl;
                      state = refl;
                      url = refl;
                      written = refl;
                      sockfd = refl;
                      linger = refl;
                    },
                  ))
              (λ _. yields (refl, all-Kept c)))))

pub IsHeader-All : (h : List ℕ) → IsHeader h → All IsPlain h
IsHeader-All [] is = tt
IsHeader-All (d ∷ r) is = is.0

-- The empty line ends a request that has no body.
pub parse_headers-blank :
    (c : Conn) (text : ℕ)
    → text_at c text ≡ ok []
    → c.content_length ≡ pos 0
    → parse_headers c text ≡ ok (get_request, c)
unfolding parse_headers
parse_headers-blank c text e body = rw (e, body) refl
