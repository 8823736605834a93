-- ===== src/ChatClient/Tests.antt =====
-- A user who types two texts, of which the first goes out in two parts.
use linux_learning.Prelude.{◌≡◌, true, false, some, List, [], ◌∷◌}
use linux_learning.ChatClient.{Client, Polled, events, failure, main_loop}
use linux_learning.ChatClient.Typed.{passed_on, main_loop-passed_on}

abbrev fresh : Client
fresh = record { pipe = []; sent = []; printed = [] }

abbrev polls : List Polled
polls =
    events false false [] (some (b'h' ∷ b'i' ∷ [])) 1
    ∷ events false true (b'o' ∷ []) (some (b'!' ∷ [])) 2
    ∷ failure
    ∷ []

all_passed_on : passed_on (main_loop fresh polls) ≡ b'h' ∷ b'i' ∷ b'!' ∷ []
all_passed_on = main_loop-passed_on polls fresh
