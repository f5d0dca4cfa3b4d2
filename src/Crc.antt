-- ===== src/Crc.antt =====
-- soaagent/crc32.c: `crc32` over a list of bytes, by the table of 256 words. A message is shorter
-- than 2^31 bytes, so that the `int` counter holds its length. Bytes are `char`s, whose sign does not
-- matter below the mask 0xFF.
mod Table
pub mod Reference
pub mod Detection
mod Examples
unfoldable pub use Table.{crc32tab}
use Prim.Native.Nat.{bit_and, bit_xor}
use ddmframework.Common.{ℕ, ◌/◌, ◌^◌, List, [], ◌∷◌, get_or}

unfoldable pub crc_step : ℕ → ℕ → ℕ
unfolding crc32tab
crc_step crc p =
    bit_xor (bit_and (crc / 2 ^ 8) 0x00FFFFFF) (get_or crc32tab (bit_and (bit_xor crc p) 0xFF) 0)

unfoldable pub crc_loop : ℕ → List ℕ → ℕ
unfolding crc_step
crc_loop crc [] = crc
crc_loop crc (p ∷ data_rest) = crc_loop (crc_step crc p) data_rest

unfoldable pub crc32 : List ℕ → ℕ
unfolding crc_loop
crc32 bytes = bit_xor (crc_loop (bit_xor 0 0xFFFFFFFF) bytes) 0xFFFFFFFF
