-- ===== src/WritevResponse/Tests.antt =====
-- A file of two bytes.
use linux_learning.Prelude.{◌≡◌, arith, none, some, ok, fault}
use linux_learning.CString.{codes}
use linux_learning.HttpConn.Response.{crlf}
use linux_learning.WritevResponse.{missing, is_directory, no_permission, readable, respond}
use linux_learning.WritevResponse.Answers.{whole_answer, respond-Answers}

respond-Answers_example :
    (respond (readable 2 (some (codes "hi"))) ≡ (whole_answer (codes "hi"), ok tt))
    × (respond (readable 7 none) ≡ (crlf, ok tt))
    × (respond missing ≡ (crlf, fault))
    × (respond is_directory ≡ (crlf, fault))
    × (respond no_permission ≡ (crlf, fault))
respond-Answers_example = respond-Answers (codes "hi") 7 (omega arith)
