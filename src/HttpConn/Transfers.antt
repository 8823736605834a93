-- ===== src/HttpConn/Transfers.antt =====
-- What close_conn, read and write of http_conn.cpp do to the socket of the connection, the positions in its read buffer and the number of users.
use linux_learning.Prelude.{
  ℕ, ◌+◌, ◌-◌, ◌≤◌, ◌≡◌, refl, ap, ◌⊎◌, inl, inr, Bool, true, false, Option, none, some, List, [],
  ◌∷◌, arith, ltb, leb, ◌==◌, is_some, length, Yields, yields, Yields-if,
}
use linux_learning.HttpConn.{
  Conn, Server, HttpCode, Received, store_bytes, got, would_block, error, closed, read_buffer_size,
  init, reset, close_conn, read, read_loop, call, remove_fd, mod_fd, epollout, no_request,
  get_request, bad_request, no_resource, forbidden_request, file_request, internal_error,
  closed_connection,
}
use linux_learning.HttpConn.Reply.{Written, again, sent, unmap, write, write_loop, answer, process}

-- The positions are in order, and inside the buffer.
abbrev pub Inside : Conn → Type 0
Inside c = (c.checked_idx ≤ c.read_idx) × (c.read_idx ≤ read_buffer_size)

-- The socket and these positions are the same.
abbrev pub Same : Conn → Conn → Type 0
Same c d = (d.sockfd ≡ c.sockfd) × (d.read_idx ≡ c.read_idx) × (d.checked_idx ≡ c.checked_idx)

-- The connection stays as it is, or is closed and counted out.
abbrev pub Moves : Conn → Server → Conn → Server → Type 0
Moves c w d v =
    Inside d
    × (((d.sockfd ≡ c.sockfd) × (v.user_count ≡ w.user_count))
        ⊎ ((is_some c.sockfd ≡ true) × (d.sockfd ≡ none) × (v.user_count ≡ w.user_count - 1)))

pub close_conn-Moves :
    (c : Conn) (w : Server) → Inside c → Moves c w (close_conn c w).0 (close_conn c w).1
unfolding close_conn
close_conn-Moves c w v = by_socket c.sockfd refl
  where
    by_socket :
        (o : Option ℕ)
        → c.sockfd ≡ o
        → let r : Conn × Server = elim o [
          | none ↦ (c, w)
          | some fd ↦ (
            record c { sockfd = none },
            record (call (remove_fd fd) w) { user_count = w.user_count - 1 },
          )
        ] in
          Moves c w r.0 r.1
    by_socket none e = (v, inl (refl, refl))
    by_socket (some fd) e = (v, inr (ap is_some e, refl, refl))

-- What recv reports ends with something else than bytes, and it gives no more than it was asked for.
abbrev pub Recvs : ℕ → List Received → Type 0
Recvs i [] = true ≡ false
Recvs i (got chunk ∷ rest) =
    (i + length chunk ≤ read_buffer_size) × ((length chunk ≡ 0) ⊎ Recvs (i + length chunk) rest)
Recvs i (_ ∷ rest) = Unit

read_loop-Inside :
    (c : Conn) (results : List Received)
    → Inside c
    → Recvs c.read_idx results
    → Yields (λ r. Inside r.1 × (r.1.sockfd ≡ c.sockfd)) (read_loop c results)
unfolding read_loop
read_loop-Inside c [] v h = absurd (cc h)
read_loop-Inside c (would_block ∷ rest) v h =
    Yields-if (leb read_buffer_size c.read_idx) (λ e. yields (v, refl)) (λ e. yields (v, refl))
read_loop-Inside c (error ∷ rest) v h =
    Yields-if (leb read_buffer_size c.read_idx) (λ e. yields (v, refl)) (λ e. yields (v, refl))
read_loop-Inside c (closed ∷ rest) v h =
    Yields-if (leb read_buffer_size c.read_idx) (λ e. yields (v, refl)) (λ e. yields (v, refl))
read_loop-Inside c (got chunk ∷ rest) v h =
    Yields-if (leb read_buffer_size c.read_idx) (λ e. yields (v, refl))
      λ e.
        Yields-if (length chunk == 0) (λ z. yields (v, refl))
          λ z.
            Yields-if (ltb read_buffer_size (c.read_idx + length chunk))
              (λ full. absurd (ground (arith, h.0)))
              λ fits.
                read_loop-Inside
                  (record c {
                    read_buf = store_bytes c.read_buf c.read_idx chunk;
                    read_idx = c.read_idx + length chunk;
                  })
                  rest (omega (arith, v.0), h.0) (more h.1 z)
  where
    more :
        (length chunk ≡ 0) ⊎ Recvs (c.read_idx + length chunk) rest
        → (length chunk == 0) ≡ false
        → Recvs (c.read_idx + length chunk) rest
    more (inl none_left) z = absurd (ground (arith, none_left))
    more (inr go_on) z = go_on

-- However recv reports, read comes back with the same socket and with its positions in the buffer.
pub read-Inside :
    (c : Conn) (results : List Received)
    → Inside c
    → Recvs c.read_idx results
    → Yields (λ r. Inside r.1 × (r.1.sockfd ≡ c.sockfd)) (read c results)
unfolding read
read-Inside c results v h =
    Yields-if (leb read_buffer_size c.read_idx) (λ e. yields (v, refl))
      (λ e. read_loop-Inside c results v h)

-- What writev reports ends with an error, or with as much as the loop waits for.
abbrev pub Sends : ℕ → ℕ → List Written → Type 0
Sends to_send have [] = true ≡ false
Sends to_send have (sent n ∷ rest) =
    (leb (to_send - n) (have + n) ≡ true) ⊎ Sends (to_send - n) (have + n) rest
Sends to_send have (_ ∷ rest) = Unit

-- What write leaves: the socket and the number of users are the same.
abbrev pub Left : Conn → Server → Bool × Conn × Server → Type 0
Left c w r = Inside r.1 × (r.1.sockfd ≡ c.sockfd) × (r.2.user_count ≡ w.user_count)

write_loop-Left :
    (c : Conn) (w : Server) (to_send have : ℕ) (results : List Written)
    → Inside c
    → Sends to_send have results
    → Yields (Left c w) (write_loop c w to_send have results)
unfolding write_loop unmap reset
write_loop-Left c w to_send have [] v h = absurd (cc h)
write_loop-Left c w to_send have (again ∷ rest) v h = yields (v, refl, refl)
write_loop-Left c w to_send have (linux_learning.HttpConn.Reply.error ∷ rest) v h =
    yields (v, refl, refl)
write_loop-Left c w to_send have (sent n ∷ rest) v h =
    Yields-if (leb (to_send - n) (have + n))
      (λ e. yields (ground arith, ground arith, ground arith))
      (λ e. write_loop-Left c w (to_send - n) (have + n) rest v (more h e))
  where
    more :
        (leb (to_send - n) (have + n) ≡ true) ⊎ Sends (to_send - n) (have + n) rest
        → leb (to_send - n) (have + n) ≡ false
        → Sends (to_send - n) (have + n) rest
    more (inl done) e = absurd (cc (done, e))
    more (inr go_on) e = go_on

pub write-Left :
    (c : Conn) (w : Server) (results : List Written)
    → Inside c
    → Sends c.write_idx 0 results
    → Yields (Left c w) (write c w results)
unfolding write reset
write-Left c w results v h =
    Yields-if (c.write_idx == 0) (λ e. yields ((omega arith, omega arith), refl, refl))
      (λ e. write_loop-Left c w c.write_idx 0 results v h)
