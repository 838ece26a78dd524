-- ===== src/Hash.antt =====
-- `get_hash_from_string` of bcm-linux-console/Cpp_part.cpp. MD5 is OpenSSL's: a parameter.
use blockchain_crypto_messan.Common.{
  ℕ, ◌+◌, ◌*◌, ◌-◌, ◌/◌, ◌%◌, ◌<◌, ◌≡◌, refl, sym, ap, ◌∙◌, ap₂, [], ◌∷◌, arith, length, All, ltb,
  if◌then◌else◌,
}
use blockchain_crypto_messan.Transaction.RoundTrip.{IsField}
use blockchain_crypto_messan.Text.{Bytes, NoNul, c_str}

-- A digit of `std::hex`.
unfoldable pub hex_digit : ℕ → ℕ
hex_digit d = if ltb d 10 then b'0' + d else b'a' + (d - 10)

-- `sout << std::setw(2) << (long long) c` with `std::hex` and `std::setfill('0')`, for each byte.
unfoldable pub hex : Bytes → Bytes
unfolding hex_digit
hex [] = []
hex (c ∷ s) = hex_digit (c / 16) ∷ hex_digit (c % 16) ∷ hex s

module _ (md5 : Bytes → Bytes) where
  unfoldable pub get_hash_from_string : Bytes → Bytes
  unfolding hex
  get_hash_from_string string = hex (md5 (c_str string))

pub length-hex : (s : Bytes) → length (hex s) ≡ 2 * length s
unfolding hex
length-hex [] = refl
length-hex (c ∷ s) = omega (arith, length-hex s)

pub hex-NoNul : (s : Bytes) → NoNul (hex s)
unfolding hex hex_digit
hex-NoNul [] = tt
hex-NoNul (c ∷ s) = (ground arith, (ground arith, hex-NoNul s))

pub hex-IsField : (s : Bytes) → IsField (hex s)
unfolding hex hex_digit
hex-IsField [] = tt
hex-IsField (c ∷ s) = ((ground arith, ground arith), ((ground arith, ground arith), hex-IsField s))

abbrev digit_value : ℕ → ℕ
digit_value d = if ltb d 97 then d - 48 else d - 87

abbrev unhex : Bytes → Bytes
unhex [] = []
unhex (h ∷ []) = []
unhex (h ∷ l ∷ s) = (digit_value h * 16 + digit_value l) ∷ unhex s

digit_value-hex_digit : (d : ℕ) → d < 16 → digit_value (hex_digit d) ≡ d
unfolding hex_digit
digit_value-hex_digit d h = ground arith

unhex-hex : (s : Bytes) → All (λ c. c < 256) s → unhex (hex s) ≡ s
unfolding hex
unhex-hex [] h = refl
unhex-hex (c ∷ s) h =
    ap₂ (λ x t. x ∷ t)
      (rw
        (digit_value-hex_digit (c / 16) (omega arith), digit_value-hex_digit (c % 16) (omega arith))
        (omega arith))
      (unhex-hex s h.1)

-- Two strings with one printed hash have one digest, if MD5 returns bytes: the printing adds no
-- collision to those of MD5.
pub get_hash_from_string-digest :
    (md5 : Bytes → Bytes) (s t : Bytes)
    → All (λ c. c < 256) (md5 (c_str s))
    → All (λ c. c < 256) (md5 (c_str t))
    → get_hash_from_string md5 s ≡ get_hash_from_string md5 t
    → md5 (c_str s) ≡ md5 (c_str t)
unfolding get_hash_from_string
get_hash_from_string-digest md5 s t hs ht e =
    sym (unhex-hex (md5 (c_str s)) hs) ∙ ap unhex e ∙ unhex-hex (md5 (c_str t)) ht
