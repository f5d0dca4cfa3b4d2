-- ===== src/Crc/Examples.antt =====
-- The check value of CRC-32, over the text "123456789", and the theorems on it.
use Prim.Native.Nat.{bit_xor}
use ddmframework.Common.{◌≢◌, ◌<◌, ◌^◌, ◌≡◌, refl, ◌∷◌, ◌++◌, arith}
use ddmframework.Url.{codes}
use ddmframework.Crc.{crc32}
use ddmframework.Crc.Reference.{divide, crc32-divide}
use ddmframework.Crc.Detection.{crc32_damaged}

check_value : crc32 (codes "123456789") ≡ 0xcbf43926
unfolding crc32
check_value = refl

crc32-divide_example :
    (crc32 (codes "123") ≡ bit_xor (divide 0xFFFFFFFF (codes "123")) 0xFFFFFFFF)
    × (crc32 (codes "123") < 2 ^ 32)
crc32-divide_example = crc32-divide (codes "123") (omega arith, (omega arith, (omega arith, tt)))

crc32_damaged_example :
    crc32 (codes "a" ++ b'b' ∷ codes "c") ≢ crc32 (codes "a" ++ b'd' ∷ codes "c")
crc32_damaged_example =
    crc32_damaged (codes "a") (codes "c") b'b' b'd' (omega arith, tt) (omega arith, tt)
      (omega arith) (omega arith) (λ e. absurd (omega (arith, e)))
