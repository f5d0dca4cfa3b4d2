-- ===== src/Protocol/Examples.antt =====
-- The theorems on messages at a message of two bytes, sent and received one byte at a time.
use ddmframework.Common.{ℕ, zero, suc, ◌≡◌, List, [], ◌∷◌, ◌++◌, arith, length}
use ddmframework.Socket.{SendReply, sent, send_done, RecvReply, got, SelectReply, readable}
use ddmframework.Socket.Transfer.{Takes, SendsOn, ReadsOn, the_net}
use ddmframework.Protocol.{arrived, refused, message, send_message, receive_message}
use ddmframework.Protocol.RoundTrip.{header, receive_message-send_message}
use ddmframework.Protocol.Corruption.{receive_message_damaged}

abbrev pub by_byte : ℕ → List RecvReply
by_byte zero = []
by_byte (suc n) = got 1 ∷ by_byte n

abbrev pub sent_by_byte : ℕ → List SendReply
sent_by_byte zero = []
sent_by_byte (suc n) = sent 1 ∷ sent_by_byte n

pub by_byte-ReadsOn : (n : ℕ) → ReadsOn (by_byte n)
by_byte-ReadsOn zero = tt
by_byte-ReadsOn (suc n) = (omega arith, by_byte-ReadsOn n)

pub sent_by_byte-SendsOn : (n : ℕ) → SendsOn (sent_by_byte n)
sent_by_byte-SendsOn zero = tt
sent_by_byte-SendsOn (suc n) = (omega arith, sent_by_byte-SendsOn n)

pub sent_by_byte-Takes : (p : List ℕ) → Takes (sent_by_byte (length p)) p
sent_by_byte-Takes [] = tt
sent_by_byte-Takes (x ∷ p) = (omega arith, sent_by_byte-Takes p)

abbrev two_bytes : List ℕ
two_bytes = 7 ∷ 8 ∷ []

two_bytes-Takes : Takes (sent_by_byte 18) (message 5 16 two_bytes)
unfolding message
two_bytes-Takes = sent_by_byte-Takes (message 5 16 two_bytes)

receive_message-send_message_example :
    ((send_message (sent_by_byte 18) 5 16 two_bytes).0 ≡ send_done)
    × (later : List RecvReply) × (selects_left : List SelectReply) × (receive_message (
          the_net
            ((send_message (sent_by_byte 18) 5 16 two_bytes).1 ++ (1 ∷ []))
            (by_byte 18)
            (readable ∷ readable ∷ []))
        ≡ (arrived 5 16 two_bytes, the_net (1 ∷ []) later selects_left))
receive_message-send_message_example =
    receive_message-send_message 5 16 two_bytes (1 ∷ []) (sent_by_byte 18) (by_byte 18) []
      (omega arith) (omega arith) (omega arith) (omega arith, (omega arith, tt)) two_bytes-Takes
      (sent_by_byte-SendsOn 18) (omega arith) (by_byte-ReadsOn 18) (omega arith)

receive_message_damaged_example :
    (later : List RecvReply) × (selects_left : List SelectReply) × (receive_message (
        the_net
          (header 5 16 two_bytes ++ ((7 ∷ 9 ∷ []) ++ (1 ∷ [])))
          (by_byte 18)
          (readable ∷ readable ∷ []))
      ≡ (refused, the_net (1 ∷ []) later selects_left))
receive_message_damaged_example =
    receive_message_damaged 5 16 8 9 (7 ∷ []) [] (1 ∷ []) (by_byte 18) [] (omega arith)
      (omega arith) (omega arith) (omega arith, tt) tt (omega arith) (omega arith)
      (λ e. absurd (omega arith)) (by_byte-ReadsOn 18) (omega arith)
