-- ===== src/Protocol.antt =====
-- soaagent/protocol.c, soaagent/protocol.h: the datagram of a call. A `malloc` succeeds; the kernel
-- and the peer are the replies and the stream of Socket.
pub mod Frame
pub mod RoundTrip
pub mod Corruption
pub mod Examples
unfoldable pub use Frame.{
  be32, read_be32, header_crc, header_identifier, header_length, header_type, get_resp_type,
  crc32_check, message, send_message,
}
use Prim.Native.Nat.{bit_or}
use ddmframework.Common.{
  ℕ, zero, ◌+◌, ◌/◌, ◌*◌, ◌%◌, ◌^◌, true, false, Bool, List, [], ◌∷◌, ◌++◌, length, drop, get_or,
  ◌==◌, if◌then◌else◌,
}
use ddmframework.Socket.{
  SendReply, SendStatus, socket_send, Net, Received, received, timed_out, receive_failed,
  peer_shutdown, receive_waiting, socket_receive,
}
use ddmframework.Crc.{crc32}

-- What `receive_message` gives its caller: 0 with the fields and the body, -1, or nothing yet.
pub data Delivery : Type 0 where
  arrived : ℕ → ℕ → List ℕ → Delivery
  refused : Delivery
  pending : Delivery

unfoldable pub checked : List ℕ → List ℕ → Delivery
unfolding crc32_check header_identifier header_type
checked header body =
    if crc32_check header body
    then arrived (header_identifier header) (header_type header) body
    else refused

unfoldable pub after_body : List ℕ → Received × Net → Delivery × Net
unfolding checked
after_body header (received body, net) = (checked header body, net)
after_body header (receive_waiting, net) = (pending, net)
after_body header (timed_out, net) = (refused, net)
after_body header (receive_failed, net) = (refused, net)
after_body header (peer_shutdown, net) = (refused, net)

unfoldable pub after_header : Received × Net → Delivery × Net
unfolding checked after_body header_length socket_receive
after_header (received header, net) =
    if header_length header == 0
    then (checked header [], net)
    else after_body header (socket_receive net (header_length header) 3)
after_header (receive_waiting, net) = (pending, net)
after_header (timed_out, net) = (refused, net)
after_header (receive_failed, net) = (refused, net)
after_header (peer_shutdown, net) = (refused, net)

unfoldable pub receive_message : Net → Delivery × Net
unfolding after_header socket_receive
receive_message net = after_header (socket_receive net 16 3)
