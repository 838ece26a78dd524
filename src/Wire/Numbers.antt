-- ===== src/Wire/Numbers.antt =====
-- The sizes of the wire: what `unsigned_char_array_4_to_int` reads of
-- `int_to_unsigned_char_array_4` (bcm-linux-console/C_part.c).
use blockchain_crypto_messan.Common.{ℕ, ◌/◌, ◌%◌, ◌^◌, ◌<◌, ◌≡◌, ap, ◌∙◌, arith}
use blockchain_crypto_messan.Common.Int.{pos}
use blockchain_crypto_messan.Wire.{
  int_to_unsigned_char_array_4, unsigned_char_array_4_to_int, as_int, shifted_in,
}

joined :
    (n : ℕ)
    → n < 2 ^ 32
    → shifted_in
        (shifted_in (shifted_in (n / 2 ^ 24 % 256) (n / 2 ^ 16 % 256)) (n / 2 ^ 8 % 256))
        (n % 256)
      ≡ n
unfolding shifted_in
joined n h = omega arith

-- The four bytes of an `unsigned int` are read back as the `int` with the same bits.
pub unsigned_char_array_4_to_int-int_to_unsigned_char_array_4 :
    (n : ℕ) → n < 2 ^ 32 → unsigned_char_array_4_to_int (int_to_unsigned_char_array_4 n) ≡ as_int n
unfolding unsigned_char_array_4_to_int int_to_unsigned_char_array_4
unsigned_char_array_4_to_int-int_to_unsigned_char_array_4 n h = ap as_int (joined n h)

-- So a size below 2 ^ 31 arrives, and a larger one as a negative number.
pub size_arrives :
    (n : ℕ) → n < 2 ^ 31 → unsigned_char_array_4_to_int (int_to_unsigned_char_array_4 n) ≡ pos n
unfolding as_int
size_arrives n h =
    unsigned_char_array_4_to_int-int_to_unsigned_char_array_4 n (omega arith) ∙ ground arith
