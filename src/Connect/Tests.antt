-- ===== src/Connect/Tests.antt =====
-- Calls of unblock_connect.
use linux_learning.Prelude.{◌≡◌, true, false, none, some, ◌==◌, if◌then◌else◌}
use linux_learning.Connect.{
  refused, in_progress, selected, error, Answers, Descriptors, unblock_connect,
}
use linux_learning.Connect.Outcome.{Outcome, unblock_connect-Outcome}

-- The standard streams are open.
abbrev streams : Descriptors
streams fd = if fd == 0 then some false else if fd == 1 then some false else none

abbrev slow : Answers
slow = record { sockfd = 3; connect = in_progress; select = selected true; getsockopt = error 0 }

unblock_connect-Outcome_example : Outcome slow streams (unblock_connect slow streams)
unblock_connect-Outcome_example = unblock_connect-Outcome slow streams

-- A socket that is refused at once stays open.
refused_stays_open : (unblock_connect (record slow { connect = refused }) streams).1 3 ≡ some true
refused_stays_open = (unblock_connect-Outcome (record slow { connect = refused }) streams).socket
