-- ===== src/Pad/Bytes.antt =====
-- Facts about one byte of text under one byte of key, by evaluation over all pairs.
use Prim.Native.Nat.{bit_xor}
use blockchain_crypto_messan.Common.{
  ℕ, ◌+◌, ◌-◌, ◌≤◌, ◌<◌, ◌≡◌, refl, Bool, true, ◌&&◌, arith, ltb, leb, ◌==◌, ==_iff, each_below,
  each_below-lt,
}

twice_table : each_below (λ c. each_below (λ k. bit_xor (bit_xor c k) k == c) 256) 256 ≡ true
unfolding each_below
twice_table = refl

-- Laying the same key byte twice gives the byte back.
pub xor_twice : (c k : ℕ) → c < 256 → k < 256 → bit_xor (bit_xor c k) k ≡ c
xor_twice c k hc hk =
    (==_iff (bit_xor (bit_xor c k) k) c).0
      (each_below-lt _ 256 k (each_below-lt _ 256 c twice_table hc) hk)

abbrev is_high : ℕ → ℕ → Bool
is_high c k = leb 128 (bit_xor c (128 + k)) && ltb (bit_xor c (128 + k)) 256

high_table : each_below (λ c. each_below (λ k. is_high c k) 128) 128 ≡ true
unfolding each_below
high_table = refl

-- A text byte below 128 under a key byte from 128 stays from 128: it is never NUL.
pub xor_high : (c k : ℕ) → c < 128 → 128 ≤ k → k < 256 → (128 ≤ bit_xor c k) × (bit_xor c k < 256)
xor_high c k hc lo hi =
    let e : 128 + (k - 128) ≡ k = omega arith in
    let t =
      each_below-lt (is_high c) 128 (k - 128) (each_below-lt _ 128 c high_table hc) (omega arith) in
    let t' = rw e at t in ground arith

zero_table : each_below (λ c. bit_xor c 0 == c) 256 ≡ true
unfolding each_below
zero_table = refl

-- Under a NUL key byte the text shows.
pub xor_zero : (c : ℕ) → c < 256 → bit_xor c 0 ≡ c
xor_zero c h = (==_iff (bit_xor c 0) c).0 (each_below-lt _ 256 c zero_table h)
