-- ===== src/ChatClient.antt =====
-- HTTP_server_learning/chatroom_client.cpp: what the user types goes to the server, and what the server
-- sends is printed. What poll, recv and splice report is an argument.
pub mod Typed
mod Tests
use linux_learning.Prelude.{
  ℕ, zero, suc, Bool, true, false, Option, none, some, List, [], ◌∷◌, ◌++◌, if◌then◌else◌, take,
}
use linux_learning.CString.{c_string}

-- The bytes that are in the pipe between the two calls of splice, those that the server was sent, and what
-- was printed.
pub record Client : Type 0 where
  pub pipe : List ℕ
  pub sent : List ℕ
  pub printed : List (List ℕ)

-- A round of poll: an error, or the events of the socket and of the terminal, with what recv writes into
-- `read_buf`, what splice takes from the terminal when it has input, and how many bytes it takes from the
-- pipe.
pub data Polled : Type 0 where
  failure : Polled
  events : (hang_up socket_in : Bool) → List ℕ → Option (List ℕ) → ℕ → Polled

abbrev pub drop : ℕ → List ℕ → List ℕ
drop zero bytes = bytes
drop (suc n) [] = []
drop (suc n) (c ∷ bytes) = drop n bytes

-- The two calls of splice.
pub forward : List ℕ → ℕ → Client → Client
forward typed moved c =
    let full = c.pipe ++ typed in
    record c { pipe = drop moved full; sent = c.sent ++ take moved full }

-- The branch of the socket.
pub on_socket : Bool → List ℕ → Client → Client
on_socket false received c = c
on_socket true received c = record c { printed = c.printed ++ c_string received ∷ [] }

-- The branch of the terminal.
pub on_terminal : Option (List ℕ) → ℕ → Client → Client
on_terminal none moved c = c
on_terminal (some typed) moved c = forward typed moved c

-- The loop of main; POLLRDHUP ends it.
pub main_loop : Client → List Polled → Client
main_loop c [] = c
main_loop c (failure ∷ rest) = c
main_loop c (events hang_up socket_in received typed moved ∷ rest) =
    let more = main_loop (on_terminal typed moved (on_socket socket_in received c)) rest in
    if hang_up then c else more
