-- ===== src/HttpParse.antt =====
-- HTTP_server_learning/http_parse.cpp: the request parser with its two state machines.
-- `recv` and the sockets are the caller's: `serve` takes the chunks that recv returned.
pub mod Reject
mod Tests
use linux_learning.Prelude.{
  ℕ, zero, suc, ◌+◌, ◌-◌, Bool, true, false, ◌&&◌, Option, none, some, List, [], ◌∷◌, ltb, ◌==◌,
  if◌then◌else◌, update, length, Run, ok, fault, out_of_fuel, ◌>>=◌,
}
use linux_learning.CString.{Bytes, codes, c_str, strpbrk, strspn, strchr, strcasecmp, strncasecmp}

abbrev pub buffer_size : ℕ
buffer_size = 4096

pub data CheckState : Type 0 where
  requestline header : CheckState

pub data LineStatus : Type 0 where
  line_ok line_bad line_open : LineStatus

pub data HttpCode : Type 0 where
  no_request get_request bad_request forbidden_request internal_error closed_connection : HttpCode

pub record Parser : Type 0 where
  pub buffer : Bytes
  pub checked_index : ℕ
  pub read_index : ℕ
  pub start_line : ℕ
  pub checkstate : CheckState

abbrev pub is_ok : LineStatus → Bool
is_ok line_ok = true
is_ok _ = false

-- One round of the loop of parse_line, the last one in every case: the `return LINE_BAD` behind the
-- two tests stands inside the loop.
pub line_round : Parser → LineStatus × Parser
line_round s =
    let temp = s.buffer s.checked_index in
    if temp == b'\r'
    then (if s.checked_index + 1 == s.read_index
        then (line_open, s)
        else if s.buffer (s.checked_index + 1) == b'\n'
        then (
          line_ok,
          record s {
            buffer = update (update s.buffer s.checked_index 0) (s.checked_index + 1) 0;
            checked_index = s.checked_index + 2;
          },
        )
        else (line_bad, s))
    else if temp == b'\n' && (ltb 1 s.checked_index && s.buffer (s.checked_index - 1) == b'\r')
    then (
      line_ok,
      record s {
        buffer = update (update s.buffer (s.checked_index - 1) 0) s.checked_index 0;
        checked_index = s.checked_index + 1;
      },
    )
    else (line_bad, s)

pub parse_line : Parser → LineStatus × Parser
parse_line s = if ltb s.checked_index s.read_index then line_round s else (line_open, s)

-- From the test of the URL on: `url` is its position.
pub check_url : Parser → ℕ → Run (HttpCode × Parser)
check_url s url = do
  u ← c_str buffer_size s.buffer url
  let accept : HttpCode × Parser = (no_request, record s { checkstate = header })
  let absolute : Run (HttpCode × Parser) = do
    path ← c_str buffer_size s.buffer (url + 7)
    ok (elim (strchr path b'/') [ none ↦ (bad_request, s) | some i ↦ accept ])
  if strncasecmp u (codes "http://") 7
      then absolute
      else ok (elim u [
        | [] ↦ (bad_request, s)
        | c ∷ _ ↦ if c == b'/' then accept else (bad_request, s)
      ])

-- From the version on: `url` has been skipped to.
pub check_version : Parser → ℕ → Run (HttpCode × Parser)
check_version s url = do
  u ← c_str buffer_size s.buffer url
  elim (strpbrk u) [
    | none ↦ ok (bad_request, s)
    | some i ↦ do
      let s' : Parser = record s { buffer = update s.buffer (url + i) 0 }
      v ← c_str buffer_size s'.buffer (url + i + 1)
      version ← c_str buffer_size s'.buffer (url + i + 1 + strspn v)
      if strcasecmp version (codes "HTTP/1.1") then check_url s' url else ok (bad_request, s')
  ]

pub parse_requestline : Parser → ℕ → Run (HttpCode × Parser)
parse_requestline s temp = do
  text ← c_str buffer_size s.buffer temp
  elim (strpbrk text) [
    | none ↦ ok (bad_request, s)
    | some i ↦ do
      let s' : Parser = record s { buffer = update s.buffer (temp + i) 0 }
      method ← c_str buffer_size s'.buffer temp
      u ← c_str buffer_size s'.buffer (temp + i + 1)
      let good = check_version s' (temp + i + 1 + strspn u)
      if strcasecmp method (codes "GET") then good else ok (bad_request, s')
  ]

-- Only an empty line ends the headers; the others are printed or ignored.
pub parse_headers : Parser → ℕ → Run HttpCode
parse_headers s temp = do
  text ← c_str buffer_size s.buffer temp
  ok (elim text [ [] ↦ get_request | _ ∷ _ ↦ no_request ])

-- The body of the loop, for the status that parse_line returned; `again` is the next round. The
-- source's `checked_line` is read as `checked_index`.
pub after_line : (Parser → Run (HttpCode × Parser)) → LineStatus × Parser → Run (HttpCode × Parser)
after_line again (line_open, s) = ok (no_request, s)
after_line again (line_bad, s) = ok (bad_request, s)
after_line again (line_ok, s) =
    let next : Parser = record s { start_line = s.checked_index } in
    let in_requestline : Run (HttpCode × Parser) = do
      (code, t) ← parse_requestline next s.start_line
      let more = again t
      elim code [ bad_request ↦ ok (bad_request, t) | _ ↦ more ]
    in let in_header : Run (HttpCode × Parser) = do
      code ← parse_headers next s.start_line
      let more = again next
      elim code [
        | bad_request ↦ ok (bad_request, next)
        | get_request ↦ ok (get_request, next)
        | _ ↦ more
      ]
      in elim s.checkstate [ requestline ↦ in_requestline | header ↦ in_header ]

pub parse_content : ℕ → Parser → Run (HttpCode × Parser)
parse_content zero s = out_of_fuel
parse_content (suc fuel) s = after_line (λ t. parse_content fuel t) (parse_line s)

-- What `main` sends to the client, if anything.
pub data Reply : Type 0 where
  correct_result something_wrong : Reply

-- The bytes of a chunk, written behind those that are there.
pub receive : Bytes → ℕ → List ℕ → Bytes
receive buf at [] = buf
receive buf at (c ∷ chunk) = receive (update buf at c) (at + 1) chunk

-- What the loop of `main` does with the result of parse_content; `again` is its next round.
pub reply : (Parser → Run (Option Reply)) → HttpCode × Parser → Run (Option Reply)
reply again (no_request, s) = again s
reply again (get_request, s) = ok (some correct_result)
reply again (_, s) = ok (some something_wrong)

-- The loop of `main` over what recv returns, an empty chunk for a closed connection, until there is
-- nothing more. A chunk longer than the room that recv was given is a fault.
pub serve : Parser → List (List ℕ) → Run (Option Reply)
serve s [] = ok none
serve s (chunk ∷ chunks) =
    let s' : Parser = record s {
      buffer = receive s.buffer s.read_index chunk;
      read_index = s.read_index + length chunk;
    } in
    let more : Run (Option Reply) =
      parse_content (suc buffer_size) s' >>= reply (λ t. serve t chunks) in
    if length chunk == 0 then ok none else if ltb buffer_size s'.read_index then fault else more

abbrev pub start : Parser
start = record {
  buffer = λ _. 0;
  checked_index = 0;
  read_index = 0;
  start_line = 0;
  checkstate = requestline;
}
