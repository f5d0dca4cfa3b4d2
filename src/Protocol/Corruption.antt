-- ===== src/Protocol/Corruption.antt =====
-- soaagent/protocol.c: a damaged message is not delivered.
use ddmframework.Common.{
  ℕ, ◌+◌, ◌≤◌, ◌<◌, ◌^◌, ◌≡◌, ◌≢◌, refl, ap, ◌∙◌, sym, false, List, ◌∷◌, ◌++◌, length,
  length-append, ◌==◌, IsBytes, All-append, arith,
}
use ddmframework.Socket.{RecvReply, SelectReply, readable}
use ddmframework.Socket.Transfer.{ReadsOn, gots, the_net}
use ddmframework.Crc.{crc32}
use ddmframework.Crc.Detection.{crc32-byte}
use ddmframework.Protocol.{refused, checked, receive_message, be32, crc32_check}
use ddmframework.Protocol.Frame.{checked_part}
use ddmframework.Protocol.RoundTrip.{
  header, header_lem, header-covered, length-header, receive_frame,
}

-- What the checksum covers before the damaged byte.
before : ℕ → ℕ → ℕ → List ℕ → List ℕ
before identifier size type xs = be32 identifier ++ (be32 size ++ type ∷ 0 ∷ 0 ∷ 0 ∷ xs)

differs : (a b : ℕ) → a ≢ b → (a == b) ≡ false
differs a b h = ground arith

covered-before :
    (identifier size type c : ℕ) (xs ys : List ℕ)
    → be32 identifier ++ be32 size ++ type ∷ 0 ∷ 0 ∷ 0 ∷ (xs ++ c ∷ ys)
      ≡ before identifier size type xs ++ c ∷ ys
unfolding before be32
covered-before identifier size type c xs ys = refl

before-IsBytes :
    (identifier size type : ℕ) (xs : List ℕ)
    → type < 256
    → IsBytes xs
    → IsBytes (before identifier size type xs)
unfolding before be32
before-IsBytes identifier size type xs ht hx = (
  omega arith,
  (
    omega arith,
    (
      omega arith,
      (
        omega arith,
        (
          omega arith,
          (
            omega arith,
            (omega arith, (omega arith, (ht, (omega arith, (omega arith, (omega arith, hx)))))),
          ),
        ),
      ),
    ),
  ),
)

same_checksum :
    (identifier size type a b : ℕ) (xs ys : List ℕ)
    → type < 256
    → IsBytes xs
    → IsBytes ys
    → a < 256
    → b < 256
    → crc32 (be32 identifier ++ be32 size ++ type ∷ 0 ∷ 0 ∷ 0 ∷ (xs ++ a ∷ ys))
      ≡ crc32 (be32 identifier ++ be32 size ++ type ∷ 0 ∷ 0 ∷ 0 ∷ (xs ++ b ∷ ys))
    → a ≡ b
same_checksum identifier size type a b xs ys ht hx hy ha hb e =
    crc32-byte (before identifier size type xs) ys a b
      (before-IsBytes identifier size type xs ht hx) hy ha hb
      (ap crc32 (sym (covered-before identifier size type a xs ys))
        ∙ e
        ∙ ap crc32 (covered-before identifier size type b xs ys))

damaged_check :
    (identifier type a b : ℕ) (xs ys : List ℕ)
    → identifier < 2 ^ 32
    → type < 256
    → length (xs ++ a ∷ ys) < 2 ^ 32
    → IsBytes xs
    → IsBytes ys
    → a < 256
    → b < 256
    → a ≢ b
    → crc32_check (header identifier type (xs ++ a ∷ ys)) (xs ++ b ∷ ys) ≡ false
unfolding crc32_check checked_part
damaged_check identifier type a b xs ys hi ht hl hx hy ha hb ne =
    rw
      (
        (header_lem identifier type (xs ++ a ∷ ys) hi ht hl
            (All-append (λ c. c < 256) xs (a ∷ ys) hx (ha, hy))).0,
        header-covered identifier type (xs ++ a ∷ ys) (xs ++ b ∷ ys),
      )
      (differs _ _ (λ e.
        ne (same_checksum identifier (length (xs ++ a ∷ ys)) type a b xs ys ht hx hy ha hb e)))

same_length : (xs ys : List ℕ) (a b : ℕ) → length (xs ++ a ∷ ys) ≡ length (xs ++ b ∷ ys)
same_length xs ys a b = length-append xs (a ∷ ys) ∙ sym (length-append xs (b ∷ ys))

refuse : (head body : List ℕ) → crc32_check head body ≡ false → checked head body ≡ refused
unfolding checked
refuse head body e = rw e refl

-- A message whose body was damaged in one byte on the way is read whole and refused: the call
-- returns -1, and the stream stands at the next message.
pub receive_message_damaged :
    (identifier type a b : ℕ) (xs ys rest : List ℕ) (reads : List RecvReply)
    (selects : List SelectReply)
    → identifier < 2 ^ 32
    → type < 256
    → length (xs ++ a ∷ ys) < 2 ^ 32
    → IsBytes xs
    → IsBytes ys
    → a < 256
    → b < 256
    → a ≢ b
    → ReadsOn reads
    → 16 + length (xs ++ a ∷ ys) ≤ gots reads
    → (later : List RecvReply) × (selects_left : List SelectReply) × (receive_message (
          the_net
            (header identifier type (xs ++ a ∷ ys) ++ ((xs ++ b ∷ ys) ++ rest))
            reads
            (readable ∷ readable ∷ selects))
        ≡ (refused, the_net rest later selects_left))
receive_message_damaged identifier type a b xs ys rest reads selects hi ht hl hx hy ha hb ne ho h =
    let head = header identifier type (xs ++ a ∷ ys) in
    let bytes : IsBytes (xs ++ a ∷ ys) = All-append (λ c. c < 256) xs (a ∷ ys) hx (ha, hy) in
    let frame =
      receive_frame head (xs ++ b ∷ ys) rest reads selects
        (length-header identifier type (xs ++ a ∷ ys))
        ((header_lem identifier type (xs ++ a ∷ ys) hi ht hl bytes).2 ∙ same_length xs ys a b) ho
        (omega (arith, same_length xs ys a b)) in
    (
      frame.0,
      frame.1,
      frame.2
          ∙ ap (λ d. (d, the_net rest frame.0 frame.1))
              (refuse head (xs ++ b ∷ ys)
                (damaged_check identifier type a b xs ys hi ht hl hx hy ha hb ne)),
    )
