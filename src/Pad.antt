-- ===== src/Pad.antt =====
-- The one-time pad: the key files of bcm-linux-console/gen_key.cpp, and the byte loop with which
-- Cpp_part.cpp lays a key over a message, in either direction.
pub mod Bytes
pub mod Laws
use Prim.Native.Nat.{bit_xor}
use blockchain_crypto_messan.Common.{ℕ, zero, suc, ◌+◌, ◌-◌, ◌%◌, List, [], ◌∷◌}

-- `char random_symbol_ascii = -128 + rand() % 127`, as the byte that is stored.
unfoldable pub random_symbol : ℕ → ℕ
random_symbol r = (256 - 128 + r % 127) % 256

-- The loop over `i` of `main`; `rand i` is the number that the i-th call of `rand()` returns.
unfoldable pub fill_key : ℕ → ℕ → (ℕ → ℕ) → List ℕ
fill_key i zero rand = []
fill_key i (suc left) rand = random_symbol (rand i) ∷ fill_key (suc i) left rand

-- The contents of the key file of `KEY_SIZE` bytes.
unfoldable pub gen_key : ℕ → (ℕ → ℕ) → List ℕ
unfolding fill_key random_symbol
gen_key key_size rand = fill_key 0 key_size rand

-- `out[j] = text[j] ^ key[j]` for each `j`; the two arrays have one size.
unfoldable pub xor_bytes : List ℕ → List ℕ → List ℕ
xor_bytes [] key = []
xor_bytes (c ∷ text) [] = []
xor_bytes (c ∷ text) (k ∷ key) = bit_xor c k ∷ xor_bytes text key
