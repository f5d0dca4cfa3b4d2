-- ===== src/Socket.antt =====
-- soaagent/util.c: `socket_send` and `socket_receive`. What the kernel answers to each system call
-- is a list of replies; the bytes that the peer has sent are a stream. A list that ends leaves the
-- call waiting.
pub mod Transfer
use ddmframework.Common.{
  ℕ, zero, ◌-◌, min, true, false, List, [], ◌∷◌, ◌++◌, length, take, drop, ltb, ◌==◌, if◌then◌else◌,
}

-- What `send` answers: a number of bytes taken, EINTR or EAGAIN, or another error.
pub data SendReply : Type 0 where
  sent : ℕ → SendReply
  send_again : SendReply
  send_broken : SendReply

pub data SendStatus : Type 0 where
  send_done : SendStatus
  send_failed : SendStatus
  send_waiting : SendStatus

-- The status and the bytes handed to the kernel.
unfoldable pub socket_send : List SendReply → List ℕ → SendStatus × List ℕ
socket_send [] p = (send_waiting, [])
socket_send (send_again ∷ replies) p = socket_send replies p
socket_send (send_broken ∷ replies) p = (send_failed, [])
socket_send (sent tmp ∷ replies) p =
    let rest = socket_send replies (drop tmp p) in
    if tmp == length p then (send_done, p) else (rest.0, take tmp p ++ rest.1)

-- What `recv` answers: at most so many bytes of the stream (none is a shutdown), EINTR or EAGAIN,
-- or another error.
pub data RecvReply : Type 0 where
  got : ℕ → RecvReply
  recv_again : RecvReply
  recv_broken : RecvReply

-- What `select` answers.
pub data SelectReply : Type 0 where
  readable : SelectReply
  elapsed : SelectReply
  select_interrupted : SelectReply
  select_broken : SelectReply

-- A socket that is read: the bytes on their way, and the kernel's replies.
pub record Net : Type 0 where
  pub stream : List ℕ
  pub reads : List RecvReply
  pub selects : List SelectReply

-- How a read ends: 0 with the buffer filled, -1 with ETIMEDOUT, -1, -2, or not yet.
pub data Received : Type 0 where
  received : List ℕ → Received
  timed_out : Received
  receive_failed : Received
  peer_shutdown : Received
  receive_waiting : Received

unfoldable pub filled : List ℕ → Received → Received
filled data_read (received rest) = received (data_read ++ rest)
filled data_read timed_out = timed_out
filled data_read receive_failed = receive_failed
filled data_read peer_shutdown = peer_shutdown
filled data_read receive_waiting = receive_waiting

-- The `while (1)` of `socket_receive`.
unfoldable pub receive_loop : List RecvReply → List ℕ → ℕ → Received × List ℕ × List RecvReply
unfolding filled
receive_loop [] s need_receive_num = (receive_waiting, s, [])
receive_loop (recv_again ∷ replies) s need_receive_num = receive_loop replies s need_receive_num
receive_loop (recv_broken ∷ replies) s need_receive_num = (receive_failed, s, replies)
receive_loop (got n ∷ replies) s need_receive_num =
    let data_read = take (min n need_receive_num) s in
    let left = drop (min n need_receive_num) s in
    let rest = receive_loop replies left (need_receive_num - length data_read) in
    if length data_read == 0
    then (peer_shutdown, s, replies)
    else if length data_read == need_receive_num
    then (received data_read, left, replies)
    else (filled data_read rest.0, rest.1, rest.2)

-- The `do` loop around `select`: `received []` when there is something to read.
unfoldable pub select_loop : List SelectReply → Received × List SelectReply
select_loop [] = (receive_waiting, [])
select_loop (readable ∷ replies) = (received [], replies)
select_loop (elapsed ∷ replies) = (timed_out, replies)
select_loop (select_interrupted ∷ replies) = select_loop replies
select_loop (select_broken ∷ replies) = (receive_failed, replies)

unfoldable pub start_reading : Net → ℕ → Received × List SelectReply → Received × Net
unfolding receive_loop
start_reading net buf_len (received d, selects_left) =
    let r = receive_loop net.reads net.stream buf_len in
    (r.0, record { stream = r.1; reads = r.2; selects = selects_left })
start_reading net buf_len (timed_out, selects_left) =
    (timed_out, record net { selects = selects_left })
start_reading net buf_len (receive_failed, selects_left) =
    (receive_failed, record net { selects = selects_left })
start_reading net buf_len (peer_shutdown, selects_left) =
    (peer_shutdown, record net { selects = selects_left })
start_reading net buf_len (receive_waiting, selects_left) =
    (receive_waiting, record net { selects = selects_left })

unfoldable pub socket_receive : Net → ℕ → ℕ → Received × Net
unfolding start_reading select_loop
socket_receive net buf_len timeout_secs =
    if ltb 0 timeout_secs
    then start_reading net buf_len (select_loop net.selects)
    else start_reading net buf_len (received [], net.selects)
