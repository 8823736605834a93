-- ===== src/HttpConn/Reply.antt =====
-- write, unmap and process of http_conn.cpp.
pub mod Answered
pub mod Empty
pub mod Asked
pub mod Session
use linux_learning.Prelude.{
  ℕ, ◌+◌, ◌-◌, Bool, true, false, List, [], ◌∷◌, leb, ◌==◌, if◌then◌else◌, Run, ok, out_of_fuel,
  ◌>>=◌,
}
use linux_learning.HttpConn.{
  Conn, Server, HttpCode, unmapped, no_request, epollin, epollout, mod_fd, call, close_conn, reset,
}
use linux_learning.HttpConn.Request.{FileSystem, process_read}
use linux_learning.HttpConn.Response.{process_write}

unfoldable pub unmap : Conn → Conn
unmap c = record c { file_address = unmapped }

-- What writev reports: a number of bytes, EAGAIN, or another error.
pub data Written : Type 0 where
  sent : ℕ → Written
  again error : Written

-- The loop of write over the results of writev. `bytes_to_send` may fall below zero in the source,
-- where the test that follows holds, as it does at the 0 of the model.
unfoldable pub write_loop : Conn → Server → ℕ → ℕ → List Written → Run (Bool × Conn × Server)
write_loop c w to_send have [] = out_of_fuel
write_loop c w to_send have (again ∷ rest) = ok (true, c, call (mod_fd c.sockfd epollout) w)
write_loop c w to_send have (error ∷ rest) = ok (false, unmap c, w)
write_loop c w to_send have (sent n ∷ rest) =
    let more = write_loop c w (to_send - n) (have + n) rest in
    let w' = call (mod_fd c.sockfd epollin) w in
    if leb (to_send - n) (have + n)
    then ok (if c.linger then (true, reset (unmap c), w') else (false, unmap c, w'))
    else more

unfoldable pub write : Conn → Server → List Written → Run (Bool × Conn × Server)
write c w results =
    if c.write_idx == 0
    then ok (true, reset c, call (mod_fd c.sockfd epollin) w)
    else write_loop c w c.write_idx 0 results

-- The end of process, for the code of process_read. The last call is made after close_conn too.
unfoldable pub answer : Conn → Server → HttpCode → Conn × Server
answer c w no_request = (c, call (mod_fd c.sockfd epollin) w)
answer c w code =
    let (good, c') = process_write c code in
    let (c'', w') = if good then (c', w) else close_conn c' w in
    (c'', call (mod_fd c''.sockfd epollout) w')

unfoldable pub process : FileSystem → Conn → Server → Run (Conn × Server)
process fs c w = do (code, c') ← process_read fs c; ok (answer c' w code)
