-- ===== src/ChatRoom/Tests.antt =====
-- A room of chatroom_server.cpp with three users.
use linux_learning.Prelude.{
  ℕ, ◌+◌, ◌≤◌, ◌<◌, ◌≡◌, refl, true, none, some, List, [], ◌∷◌, arith, ◌==◌, if◌then◌else◌, All,
  Run, ok, ◌>>=◌, Yields,
}
use linux_learning.ChatRoom.{
  Bits, Room, Outcome, got, nothing, no_bits, new_room, entry, owner, accept, leave, notify,
  broadcast, on_pollin, on_pollout, serve,
}
use linux_learning.ChatRoom.Table.{IsClient, Possible}
use linux_learning.ChatRoom.Rounds.{IsTable, serve-IsTable}
use linux_learning.ChatRoom.Messages.{Told, broadcast-Told, leave-loses}

-- The socket 3 listens, and 7, 8 and 9 are users; 8 waits to be sent the text of 7.
abbrev room : Room
room = record {
  users = λ f. record {
    write_buf = if f == 8 then some 7 else none;
    buf = if f == 7 then 104 ∷ 105 ∷ [] else [];
  };
  fds =
      λ i. record { fd = some (if i == 0 then 3 else 6 + i); events = no_bits; revents = no_bits };
  user_counter = 3;
  sent = [];
  closed = [];
}

room-IsClient : (i : ℕ) → 0 < i → i ≤ 3 → IsClient 3 (room.fds i)
room-IsClient i lt le = record {
  fd = if i == 0 then 3 else 6 + i;
  is = refl;
  below = ground arith;
  other = ground arith;
}

room-IsTable : IsTable 3 room
room-IsTable = record { few = omega arith; listens = refl; client = room-IsClient }

abbrev quiet : Outcome
quiet = record { accepted = none; received = nothing }

quiet-Possible : Possible 3 quiet
quiet-Possible = record { fresh = λ f e. absurd (cc e) }

abbrev seven : List Outcome
seven = quiet ∷ quiet ∷ quiet ∷ quiet ∷ quiet ∷ quiet ∷ quiet ∷ []

seven-All : All (Possible 3) seven
seven-All = let q = quiet-Possible in (q, (q, (q, (q, (q, (q, (q, tt)))))))

-- The second user has gone.
abbrev hung_up : ℕ → Bits
hung_up i = if i == 2 then record no_bits { pollrdhup = true } else no_bits

serve-IsTable_example : Yields (IsTable 3) (serve 3 room (some (hung_up, seven) ∷ []))
serve-IsTable_example =
    serve-IsTable 3 room (some (hung_up, seven) ∷ []) room-IsTable
      ((refl, refl), seven-All, omega arith, tt)

broadcast-Told_example : Yields (Told room 7 1 3) (broadcast 3 1 room 7)
broadcast-Told_example =
    broadcast-Told 3 3 1 room 7 (λ k h h'. room-IsClient k (omega arith) (omega arith))
      (omega arith)

leave-loses_example : Yields (λ s. s.sent ≡ (8, []) ∷ []) (leave room 1 >>= λ s. on_pollout s 2)
unfolding room-IsClient
leave-loses_example =
    leave-loses 3 room 1 2 (room-IsClient 1 (omega arith) (omega arith))
      (room-IsClient 3 (omega arith) (omega arith)) (room-IsClient 2 (omega arith) (omega arith))
      (omega arith) (omega arith) (omega arith) refl refl refl

-- Two users enter a new room, and the first one says something that the second one is sent.
talk : Run Room
unfolding new_room accept entry owner on_pollin broadcast notify on_pollout
talk = do
  r1 ← accept (new_room 3 (λ f. record { write_buf = none; buf = [] })) (some 7)
  r2 ← accept r1 (some 8)
  (_, r3) ← on_pollin r2 1 (got 104 (105 ∷ []))
  on_pollout r3 2

sent_of_talk :
    (r : Room) × (talk ≡ ok r) × (r.sent ≡ (8, 104 ∷ 105 ∷ []) ∷ []) × (r.user_counter ≡ 2)
unfolding talk
sent_of_talk = (_, refl, refl, refl)
