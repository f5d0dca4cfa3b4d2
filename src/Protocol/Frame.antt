-- ===== src/Protocol/Frame.antt =====
-- soaagent/protocol.c: the bytes of a message, and `send_message`.
use Prim.Native.Nat.{bit_or}
use ddmframework.Common.{
  ℕ, ◌+◌, ◌/◌, ◌*◌, ◌%◌, ◌^◌, Bool, List, [], ◌∷◌, ◌++◌, length, drop, get_or, ◌==◌,
}
use ddmframework.Socket.{SendReply, SendStatus, socket_send}
use ddmframework.Crc.{crc32}

-- A 32-bit field behind `htonl`: four bytes, the highest first.
unfoldable pub be32 : ℕ → List ℕ
be32 n = n / 2 ^ 24 % 256 ∷ n / 2 ^ 16 % 256 ∷ n / 2 ^ 8 % 256 ∷ n % 256 ∷ []

-- `ntohl` of the field.
unfoldable pub read_be32 : List ℕ → ℕ
read_be32 bytes =
    get_or bytes 0 0 * 2 ^ 24
    + get_or bytes 1 0 * 2 ^ 16
    + get_or bytes 2 0 * 2 ^ 8
    + get_or bytes 3 0

-- The fields of the packed `message_header`, each at its offset.
unfoldable pub header_crc : List ℕ → ℕ
unfolding read_be32
header_crc header = read_be32 header

unfoldable pub header_identifier : List ℕ → ℕ
unfolding read_be32
header_identifier header = read_be32 (drop 4 header)

unfoldable pub header_length : List ℕ → ℕ
unfolding read_be32
header_length header = read_be32 (drop 8 header)

unfoldable pub header_type : List ℕ → ℕ
header_type header = get_or header 12 0

unfoldable pub get_resp_type : ℕ → ℕ
get_resp_type type = bit_or (1 * 2 ^ 7) type % 2 ^ 8

unfoldable pub crc32_check : List ℕ → List ℕ → Bool
unfolding header_crc crc32
crc32_check header body = header_crc header == crc32 (drop 4 (header ++ body))

-- What follows the checksum: `memset` leaves the reserved bytes 0.
unfoldable pub checked_part : ℕ → ℕ → List ℕ → List ℕ
unfolding be32
checked_part identifier type buffer =
    be32 identifier ++ be32 (length buffer) ++ type ∷ 0 ∷ 0 ∷ 0 ∷ buffer

unfoldable pub message : ℕ → ℕ → List ℕ → List ℕ
unfolding checked_part crc32
message identifier type buffer =
    be32 (crc32 (checked_part identifier type buffer)) ++ checked_part identifier type buffer

unfoldable pub send_message : List SendReply → ℕ → ℕ → List ℕ → SendStatus × List ℕ
unfolding socket_send message
send_message replies identifier type buffer = socket_send replies (message identifier type buffer)
