-- ===== src/ChatClient/Typed.antt =====
-- What the client of chatroom_client.cpp sends.
use mathlib.Core.List.{append_assoc, append-nil}
use linux_learning.Prelude.{
  ℕ, zero, suc, ◌≡◌, refl, sym, ap, ◌∙◌, Bool, true, false, none, some, List, [], ◌∷◌, ◌++◌,
  if◌then◌else◌, take,
}
use linux_learning.ChatClient.{
  Client, Polled, failure, events, drop, forward, on_socket, on_terminal, main_loop,
}

-- What is typed until poll has an error or the server hangs up.
abbrev pub typed_in : List Polled → List ℕ
typed_in [] = []
typed_in (failure ∷ rest) = []
typed_in (events hang_up socket_in received none moved ∷ rest) =
    let more = typed_in rest in if hang_up then [] else more
typed_in (events hang_up socket_in received (some typed) moved ∷ rest) =
    let more = typed_in rest in if hang_up then [] else typed ++ more

take-drop : (n : ℕ) (l : List ℕ) → take n l ++ drop n l ≡ l
take-drop zero l = refl
take-drop (suc n) [] = refl
take-drop (suc n) (c ∷ l) = ap (λ t. c ∷ t) (take-drop n l)

-- The bytes that the client has taken from the terminal.
abbrev pub passed_on : Client → List ℕ
passed_on c = c.sent ++ c.pipe

forward-passed_on :
    (typed : List ℕ) (moved : ℕ) (c : Client)
    → passed_on (forward typed moved c) ≡ passed_on c ++ typed
unfolding forward
forward-passed_on typed moved c =
    let full = c.pipe ++ typed in
    append_assoc c.sent (take moved full) (drop moved full)
    ∙ ap (λ l. c.sent ++ l) (take-drop moved full)
    ∙ sym (append_assoc c.sent c.pipe typed)

on_socket-passed_on :
    (socket_in : Bool) (received : List ℕ) (c : Client)
    → passed_on (on_socket socket_in received c) ≡ passed_on c
unfolding on_socket
on_socket-passed_on false received c = refl
on_socket-passed_on true received c = refl

-- However much of the pipe each call of splice moves, what was sent, with what is left in the pipe behind
-- it, is what was typed until the server hung up or poll had an error, in its order.
pub main_loop-passed_on :
    (polls : List Polled) (c : Client)
    → passed_on (main_loop c polls) ≡ passed_on c ++ typed_in polls
unfolding main_loop on_terminal
main_loop-passed_on [] c = sym (append-nil (passed_on c))
main_loop-passed_on (failure ∷ rest) c = sym (append-nil (passed_on c))
main_loop-passed_on (events true socket_in received none moved ∷ rest) c =
    sym (append-nil (passed_on c))
main_loop-passed_on (events true socket_in received (some typed) moved ∷ rest) c =
    sym (append-nil (passed_on c))
main_loop-passed_on (events false socket_in received none moved ∷ rest) c =
    main_loop-passed_on rest (on_socket socket_in received c)
    ∙ ap (λ l. l ++ typed_in rest) (on_socket-passed_on socket_in received c)
main_loop-passed_on (events false socket_in received (some typed) moved ∷ rest) c =
    let c' = on_socket socket_in received c in
    main_loop-passed_on rest (forward typed moved c')
    ∙ ap (λ l. l ++ typed_in rest)
        (forward-passed_on typed moved c'
          ∙ ap (λ l. l ++ typed) (on_socket-passed_on socket_in received c))
    ∙ append_assoc (passed_on c) typed (typed_in rest)
