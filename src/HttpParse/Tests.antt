-- ===== src/HttpParse/Tests.antt =====
-- Runs of http_parse.cpp, and its theorems at concrete requests.
use linux_learning.Prelude.{ℕ, ◌≡◌, ◌≢◌, refl, some, List, [], ◌∷◌, ok, arith, Yields}
use linux_learning.CString.{codes}
use linux_learning.HttpParse.{
  Parser, serve, reply, receive, parse_content, after_line, parse_line, line_round, start,
  correct_result, something_wrong,
}
use linux_learning.HttpParse.Reject.{Fresh, serve-rejects}

abbrev plain_get : List ℕ
plain_get = codes "GET /a HTTP/1.1\r\nHost: b\r\n\r\n"

plain_get_answer : serve start (plain_get ∷ []) ≡ ok (some something_wrong)
unfolding serve reply receive parse_content after_line parse_line line_round
plain_get_answer = refl

abbrev start-Fresh : Fresh start
start-Fresh = record { checked = refl; line = refl; state = refl }

serve-rejects_example :
    Yields (λ a. a ≢ some correct_result) (serve start (plain_get ∷ codes "x" ∷ []))
serve-rejects_example = serve-rejects start (plain_get ∷ codes "x" ∷ []) start-Fresh (omega arith)

abbrev one_byte : Parser
one_byte = record start { buffer = λ _. b'G'; read_index = 1 }
