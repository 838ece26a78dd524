-- ===== src/Pad/Laws.antt =====
-- What the pad guarantees: generated keys have no byte below 128, a ciphertext of ASCII text is a
-- C string of the same length, and the same stretch of key takes it back.
use Prim.Native.Nat.{bit_xor}
use blockchain_crypto_messan.Common.{◌∙◌, ◌++◌}
use blockchain_crypto_messan.Common.{
  ℕ, zero, suc, ◌≤◌, ◌<◌, ◌≡◌, refl, ap, ap₂, [], ◌∷◌, arith, length, take, drop, All,
}
use blockchain_crypto_messan.Text.{Bytes, NoNul}
use blockchain_crypto_messan.Pad.{random_symbol, fill_key, gen_key, xor_bytes}
use blockchain_crypto_messan.Pad.Bytes.{xor_twice, xor_high, xor_zero}

abbrev pub IsAscii : Bytes → Type 0
IsAscii text = All (λ c. (0 < c) × (c < 128)) text

abbrev pub IsHigh : Bytes → Type 0
IsHigh key = All (λ k. (128 ≤ k) × (k < 256)) key

fill_key-IsHigh : (i left : ℕ) (rand : ℕ → ℕ) → IsHigh (fill_key i left rand)
unfolding fill_key random_symbol
fill_key-IsHigh i zero rand = tt
fill_key-IsHigh i (suc left) rand = ((omega arith, omega arith), fill_key-IsHigh (suc i) left rand)

length-fill_key : (i left : ℕ) (rand : ℕ → ℕ) → length (fill_key i left rand) ≡ left
unfolding fill_key
length-fill_key i zero rand = refl
length-fill_key i (suc left) rand = ap suc (length-fill_key (suc i) left rand)

-- A generated key has the size asked for, and every byte of it is from 128 to 255, whatever
-- numbers `rand` returns.
pub gen_key_lem :
    (key_size : ℕ) (rand : ℕ → ℕ)
    → (length (gen_key key_size rand) ≡ key_size) × IsHigh (gen_key key_size rand)
unfolding gen_key
gen_key_lem key_size rand = (length-fill_key 0 key_size rand, fill_key-IsHigh 0 key_size rand)

pub IsHigh-NoNul : (key : Bytes) → IsHigh key → NoNul key
IsHigh-NoNul [] h = tt
IsHigh-NoNul (k ∷ key) h = (omega arith, IsHigh-NoNul key h.1)

pub IsAscii-NoNul : (text : Bytes) → IsAscii text → NoNul text
IsAscii-NoNul [] h = tt
IsAscii-NoNul (c ∷ text) h = (omega arith, IsAscii-NoNul text h.1)

pub length-xor_bytes :
    (text key : Bytes) → length text ≤ length key → length (xor_bytes text key) ≡ length text
unfolding xor_bytes
length-xor_bytes [] key le = refl
length-xor_bytes (c ∷ text) [] le = absurd (omega arith)
length-xor_bytes (c ∷ text) (k ∷ key) le = ap suc (length-xor_bytes text key (omega arith))

pub xor_bytes-IsHigh : (text key : Bytes) → IsAscii text → IsHigh key → IsHigh (xor_bytes text key)
unfolding xor_bytes
xor_bytes-IsHigh [] key ha hk = tt
xor_bytes-IsHigh (c ∷ text) [] ha hk = tt
xor_bytes-IsHigh (c ∷ text) (k ∷ key) ha hk =
    (xor_high c k ha.0.1 hk.0.0 hk.0.1, xor_bytes-IsHigh text key ha.1 hk.1)

-- Laying a key twice gives the text back.
pub xor_bytes_twice :
    (text key : Bytes)
    → IsAscii text
    → IsHigh key
    → length text ≤ length key
    → xor_bytes (xor_bytes text key) key ≡ text
unfolding xor_bytes
xor_bytes_twice [] key ha hk le = refl
xor_bytes_twice (c ∷ text) [] ha hk le = absurd (omega arith)
xor_bytes_twice (c ∷ text) (k ∷ key) ha hk le =
    ap₂ (λ b t. b ∷ t) (xor_twice c k (omega arith) (omega arith))
      (xor_bytes_twice text key ha.1 hk.1 (omega arith))

pub take-IsHigh : (n : ℕ) (key : Bytes) → IsHigh key → IsHigh (take n key)
take-IsHigh zero key h = tt
take-IsHigh (suc n) [] h = tt
take-IsHigh (suc n) (k ∷ key) h = (h.0, take-IsHigh n key h.1)

pub drop-IsHigh : (n : ℕ) (key : Bytes) → IsHigh key → IsHigh (drop n key)
drop-IsHigh zero key h = h
drop-IsHigh (suc n) [] h = tt
drop-IsHigh (suc n) (k ∷ key) h = drop-IsHigh n key h.1

pub xor_bytes-append :
    (xs ys ks ls : Bytes)
    → length ks ≡ length xs
    → xor_bytes (xs ++ ys) (ks ++ ls) ≡ xor_bytes xs ks ++ xor_bytes ys ls
unfolding xor_bytes
xor_bytes-append [] ys [] ls e = refl
xor_bytes-append [] ys (k ∷ ks) ls e = absurd (omega arith)
xor_bytes-append (x ∷ xs) ys [] ls e = absurd (omega arith)
xor_bytes-append (x ∷ xs) ys (k ∷ ks) ls e =
    ap (λ t. bit_xor x k ∷ t) (xor_bytes-append xs ys ks ls (omega arith))

-- A last byte of text over the NUL behind the key comes out as it is.
pub xor_bytes_over_end :
    (xs ks : Bytes) (last : ℕ)
    → length ks ≡ length xs
    → last < 256
    → xor_bytes (xs ++ last ∷ []) (ks ++ 0 ∷ []) ≡ xor_bytes xs ks ++ last ∷ []
xor_bytes_over_end xs ks last e h =
    xor_bytes-append xs (last ∷ []) ks (0 ∷ []) e
    ∙ ap (λ t. xor_bytes xs ks ++ t) (unfold xor_bytes in ap (λ c. c ∷ []) (xor_zero last h))
