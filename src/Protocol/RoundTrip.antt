-- ===== src/Protocol/RoundTrip.antt =====
-- soaagent/protocol.c: `receive_message` against `send_message`.
use ddmframework.Common.{
  ℕ, ◌+◌, ◌≤◌, ◌<◌, ◌^◌, ◌≡◌, refl, ap, ap₂, ◌∙◌, sym, true, false, List, [], ◌∷◌, ◌++◌, append-nil,
  length, length-append, take, drop, take-append, drop-append, ◌==◌, IsBytes, All-append, arith,
}
use ddmframework.Socket.{
  SendReply, send_done, socket_send, RecvReply, SelectReply, readable, Net, received,
  socket_receive,
}
use ddmframework.Socket.Transfer.{
  Takes, SendsOn, sends, socket_send_lem, socket_send-sends, ReadsOn, gots, socket_receive-readable,
  the_net,
}
use ddmframework.Crc.{crc32}
use ddmframework.Crc.Reference.{crc32-divide}
use ddmframework.Protocol.{
  arrived, checked, after_body, after_header, receive_message, send_message, be32, read_be32,
  header_crc, header_identifier, header_length, header_type, crc32_check, message,
}
use ddmframework.Protocol.Frame.{checked_part}

pub read_be32-be32 : (n : ℕ) (rest : List ℕ) → n < 2 ^ 32 → read_be32 (be32 n ++ rest) ≡ n
unfolding read_be32 be32
read_be32-be32 n rest h = omega arith

be32-IsBytes : (n : ℕ) → IsBytes (be32 n)
unfolding be32
be32-IsBytes n = (omega arith, (omega arith, (omega arith, (omega arith, tt))))

pub checked_part-IsBytes :
    (identifier type : ℕ) (body : List ℕ)
    → type < 256
    → IsBytes body
    → IsBytes (checked_part identifier type body)
unfolding checked_part
checked_part-IsBytes identifier type body ht hb =
    All-append (λ b. b < 256) (be32 identifier) (be32 (length body) ++ type ∷ 0 ∷ 0 ∷ 0 ∷ body)
      (be32-IsBytes identifier)
      (All-append (λ b. b < 256) (be32 (length body)) (type ∷ 0 ∷ 0 ∷ 0 ∷ body)
        (be32-IsBytes (length body)) (ht, (omega arith, (omega arith, (omega arith, hb)))))

-- The header that stands before a body.
abbrev pub header : ℕ → ℕ → List ℕ → List ℕ
header identifier type body = take 16 (message identifier type body)

pub message_split :
    (identifier type : ℕ) (body rest : List ℕ)
    → message identifier type body ++ rest ≡ header identifier type body ++ (body ++ rest)
unfolding message checked_part be32
message_split identifier type body rest = refl

pub header_lem :
    (identifier type : ℕ) (body : List ℕ)
    → identifier < 2 ^ 32
    → type < 256
    → length body < 2 ^ 32
    → IsBytes body
    → (header_crc (header identifier type body) ≡ crc32 (checked_part identifier type body))
      × (header_identifier (header identifier type body) ≡ identifier)
      × (header_length (header identifier type body) ≡ length body)
      × (header_type (header identifier type body) ≡ type)
unfolding header_crc header_identifier header_length header_type message checked_part be32 read_be32
header_lem identifier type body hi ht hl hb = (
  read_be32-be32 (crc32 (checked_part identifier type body)) []
      (crc32-divide (checked_part identifier type body)
        (checked_part-IsBytes identifier type body ht hb)).1,
  read_be32-be32 identifier [] hi,
  read_be32-be32 (length body) [] hl,
  refl,
)

pub header-covered :
    (identifier type : ℕ) (body other : List ℕ)
    → drop 4 (header identifier type body ++ other)
      ≡ be32 identifier ++ be32 (length body) ++ type ∷ 0 ∷ 0 ∷ 0 ∷ other
unfolding message checked_part be32
header-covered identifier type body other = refl

pub length-header :
    (identifier type : ℕ) (body : List ℕ) → length (header identifier type body) ≡ 16
unfolding message checked_part be32
length-header identifier type body = refl

same : (n : ℕ) → (n == n) ≡ true
same n = ground arith

header_check :
    (identifier type : ℕ) (body : List ℕ)
    → identifier < 2 ^ 32
    → type < 256
    → length body < 2 ^ 32
    → IsBytes body
    → crc32_check (header identifier type body) body ≡ true
unfolding crc32_check checked_part
header_check identifier type body hi ht hl hb =
    rw ((header_lem identifier type body hi ht hl hb).0, header-covered identifier type body body)
      (same (crc32 (checked_part identifier type body)))

header-checked :
    (identifier type : ℕ) (body : List ℕ)
    → identifier < 2 ^ 32
    → type < 256
    → length body < 2 ^ 32
    → IsBytes body
    → checked (header identifier type body) body ≡ arrived identifier type body
unfolding checked
header-checked identifier type body hi ht hl hb =
    let fields = header_lem identifier type body hi ht hl hb in
    rw (header_check identifier type body hi ht hl hb, fields.1, fields.3) refl

first_is_zero :
    (head : List ℕ) (net : Net)
    → header_length head ≡ 0
    → after_header (received head, net) ≡ (checked head [], net)
unfolding after_header
first_is_zero head net e = rw e refl

positive : (n : ℕ) → 1 ≤ n → (n == 0) ≡ false
positive n h = ground arith

first_has_body :
    (head : List ℕ) (net : Net) (n : ℕ)
    → header_length head ≡ n
    → 1 ≤ n
    → after_header (received head, net) ≡ after_body head (socket_receive net n 3)
unfolding after_header
first_has_body head net n e h = rw (e, positive n h) refl

take_head : (head later : List ℕ) → length head ≡ 16 → take 16 (head ++ later) ≡ head
take_head head later h = ap (λ (n : ℕ). take n (head ++ later)) (sym h) ∙ take-append head later

drop_head : (head later : List ℕ) → length head ≡ 16 → drop 16 (head ++ later) ≡ later
drop_head head later h = ap (λ (n : ℕ). drop n (head ++ later)) (sym h) ∙ drop-append head later

-- The header is read, whatever follows it.
read_header :
    (head later : List ℕ) (reads : List RecvReply) (selects : List SelectReply)
    → length head ≡ 16
    → ReadsOn reads
    → 16 ≤ gots reads
    → (reads_left : List RecvReply) × (receive_message
          (the_net (head ++ later) reads (readable ∷ selects))
        ≡ after_header (received head, the_net later reads_left selects))
      × ReadsOn reads_left
      × (gots reads ≤ gots reads_left + 16)
unfolding receive_message
read_header head later reads selects hh ho h =
    let first =
      socket_receive-readable (head ++ later) reads selects 16 3 ho (omega arith)
        (omega (arith, length-append head later)) h (omega arith) in
    (
      first.0,
      ap after_header (
          first.1
          ∙ ap₂ (λ (x y : List ℕ). (received x, the_net y first.0 selects))
              (take_head head later hh) (drop_head head later hh)),
      first.2,
      first.3,
    )

-- So is the body.
read_body :
    (head body rest : List ℕ) (reads : List RecvReply) (selects : List SelectReply)
    → 1 ≤ length body
    → ReadsOn reads
    → length body ≤ gots reads
    → (later : List RecvReply) × (after_body head
          (socket_receive (the_net (body ++ rest) reads (readable ∷ selects)) (length body) 3)
        ≡ (checked head body, the_net rest later selects))
unfolding after_body
read_body head body rest reads selects h1 ho h =
    let second =
      socket_receive-readable (body ++ rest) reads selects (length body) 3 ho h1
        (omega (arith, length-append body rest)) h (omega arith) in
    (
      second.0,
      ap (after_body head) second.1
          ∙ ap₂ (λ (x y : List ℕ). (checked head x, the_net y second.0 selects))
              (take-append body rest) (drop-append body rest),
    )

-- The frame of a header that announces its body is read whole.
pub receive_frame :
    (head body rest : List ℕ) (reads : List RecvReply) (selects : List SelectReply)
    → length head ≡ 16
    → header_length head ≡ length body
    → ReadsOn reads
    → 16 + length body ≤ gots reads
    → (later : List RecvReply) × (selects_left : List SelectReply) × (receive_message
          (the_net (head ++ (body ++ rest)) reads (readable ∷ readable ∷ selects))
        ≡ (checked head body, the_net rest later selects_left))
receive_frame head [] rest reads selects hh hl ho h =
    let first = read_header head rest reads (readable ∷ selects) hh ho (omega arith) in
    (
      first.0,
      readable ∷ selects,
      first.1 ∙ first_is_zero head (the_net rest first.0 (readable ∷ selects)) hl,
    )
receive_frame head (x ∷ xs) rest reads selects hh hl ho h =
    let first = read_header head (x ∷ xs ++ rest) reads (readable ∷ selects) hh ho (omega arith) in
    let second =
      read_body head (x ∷ xs) rest first.0 selects (omega arith) first.2 (omega (arith, first.3)) in
    (
      second.0,
      selects,
      first.1
          ∙ first_has_body head (the_net (x ∷ xs ++ rest) first.0 (readable ∷ selects))
              (length (x ∷ xs)) hl (omega arith)
          ∙ second.1,
    )

-- A message of bytes that `send_message` puts on the wire, with a 32-bit identifier and an 8-bit
-- type, comes out of `receive_message` as it was sent, for a kernel that cuts the stream at any
-- places but answers without an error and often enough; what was sent after it stays in the stream.
pub receive_message-message :
    (identifier type : ℕ) (body rest : List ℕ) (reads : List RecvReply) (selects : List SelectReply)
    → identifier < 2 ^ 32
    → type < 256
    → length body < 2 ^ 32
    → IsBytes body
    → ReadsOn reads
    → 16 + length body ≤ gots reads
    → (later : List RecvReply) × (selects_left : List SelectReply) × (receive_message
          (the_net (message identifier type body ++ rest) reads (readable ∷ readable ∷ selects))
        ≡ (arrived identifier type body, the_net rest later selects_left))
receive_message-message identifier type body rest reads selects hi ht hl hb ho h =
    let frame =
      receive_frame (header identifier type body) body rest reads selects
        (length-header identifier type body) (header_lem identifier type body hi ht hl hb).2 ho h in
    (
      frame.0,
      frame.1,
      ap (λ s. receive_message (the_net s reads (readable ∷ readable ∷ selects)))
            (message_split identifier type body rest)
          ∙ frame.2
          ∙ ap (λ d. (d, the_net rest frame.0 frame.1))
              (header-checked identifier type body hi ht hl hb),
    )

length-message :
    (identifier type : ℕ) (body : List ℕ) → length (message identifier type body) ≡ 16 + length body
unfolding message checked_part be32
length-message identifier type body = omega arith

pub whole_message :
    (replies : List SendReply) (p : List ℕ)
    → Takes replies p
    → SendsOn replies
    → 1 ≤ length p
    → length p ≤ sends replies
    → (socket_send replies p).1 ≡ p
whole_message replies p ht hs h1 h =
    let sent_lem = socket_send_lem replies p ht in
    sym (append-nil (socket_send replies p).1)
    ∙ ap (λ t. (socket_send replies p).1 ++ t)
        (sym (sent_lem.2 (socket_send-sends replies p ht hs h1 h)))
    ∙ sent_lem.1

-- What `send_message` sends, in the pieces that the kernel takes, `receive_message` delivers as it
-- was: the call succeeds, and the identifier, the type and the body arrive, for a kernel that cuts
-- the stream at any places on both sides but answers without an error and often enough. The
-- identifier has 32 bits, the type 8, the length 32; what was sent later stays in the stream.
pub receive_message-send_message :
    (identifier type : ℕ) (body rest : List ℕ) (replies : List SendReply) (reads : List RecvReply)
    (selects : List SelectReply)
    → identifier < 2 ^ 32
    → type < 256
    → length body < 2 ^ 32
    → IsBytes body
    → Takes replies (message identifier type body)
    → SendsOn replies
    → 16 + length body ≤ sends replies
    → ReadsOn reads
    → 16 + length body ≤ gots reads
    → ((send_message replies identifier type body).0 ≡ send_done)
      × (later : List RecvReply) × (selects_left : List SelectReply) × (receive_message (
            the_net
              ((send_message replies identifier type body).1 ++ rest)
              reads
              (readable ∷ readable ∷ selects))
          ≡ (arrived identifier type body, the_net rest later selects_left))
unfolding send_message
receive_message-send_message identifier type body rest replies reads selects hi ht hl hb taken hs hn
      ho h =
    let size = length-message identifier type body in
    let got_it = receive_message-message identifier type body rest reads selects hi ht hl hb ho h in
    (
      socket_send-sends replies (message identifier type body) taken hs (omega (arith, size))
          (omega (arith, size)),
      got_it.0,
      got_it.1,
      ap (λ s. receive_message (the_net (s ++ rest) reads (readable ∷ readable ∷ selects)))
            (whole_message replies (message identifier type body) taken hs (omega (arith, size))
              (omega (arith, size)))
          ∙ got_it.2,
    )

-- `send_message` alone.
pub send_message_done :
    (identifier type : ℕ) (body : List ℕ) (replies : List SendReply)
    → Takes replies (message identifier type body)
    → SendsOn replies
    → 16 + length body ≤ sends replies
    → (send_message replies identifier type body).0 ≡ send_done
unfolding send_message
send_message_done identifier type body replies taken hs hn =
    let size = length-message identifier type body in
    socket_send-sends replies (message identifier type body) taken hs (omega (arith, size))
      (omega (arith, size))
