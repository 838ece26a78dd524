-- ===== src/Text.antt =====
-- The C string functions that bcm-linux-console/Cpp_part.cpp calls, on lists of byte values.
-- A list stands for the bytes of a buffer; the buffers of the program are zero-filled, so
-- what follows the end of the list reads as NUL.
pub mod Decimal
use blockchain_crypto_messan.Common.{
  ℕ, zero, suc, ◌≤◌, ◌<◌, ◌≡◌, refl, ap, List, [], ◌∷◌, ◌++◌, arith, length, take, drop, All,
}

abbrev pub Bytes : Type 0
Bytes = List ℕ

-- The bytes before the first NUL: what `std::string s (buffer)` or `strcpy` takes.
unfoldable pub c_str : Bytes → Bytes
c_str [] = []
c_str (zero ∷ s) = []
c_str (suc c ∷ s) = suc c ∷ c_str s

-- `strncpy(dst, src, n)`: the `n` bytes written, padded by NUL behind the end of `src`.
unfoldable pub strncpy : ℕ → Bytes → Bytes
strncpy zero s = []
strncpy (suc n) [] = 0 ∷ strncpy n []
strncpy (suc n) (zero ∷ s) = 0 ∷ strncpy n []
strncpy (suc n) (suc c ∷ s) = suc c ∷ strncpy n s

-- No byte is NUL.
abbrev pub NoNul : Bytes → Type 0
NoNul s = All (λ c. 0 < c) s

pub c_str-eq : (s : Bytes) → NoNul s → c_str s ≡ s
unfolding c_str
c_str-eq [] h = refl
c_str-eq (zero ∷ s) h = absurd (omega arith)
c_str-eq (suc c ∷ s) h = ap (λ t. suc c ∷ t) (c_str-eq s h.1)

pub c_str-NoNul : (s : Bytes) → NoNul (c_str s)
unfolding c_str
c_str-NoNul [] = tt
c_str-NoNul (zero ∷ s) = tt
c_str-NoNul (suc c ∷ s) = (omega arith, c_str-NoNul s)

-- A terminated string inside a buffer is read up to its terminator.
pub c_str-append : (s t : Bytes) → NoNul s → c_str (s ++ 0 ∷ t) ≡ s
unfolding c_str
c_str-append [] t h = refl
c_str-append (zero ∷ s) t h = absurd (omega arith)
c_str-append (suc c ∷ s) t h = ap (λ r. suc c ∷ r) (c_str-append s t h.1)

pub length-strncpy : (n : ℕ) (s : Bytes) → length (strncpy n s) ≡ n
unfolding strncpy
length-strncpy zero s = refl
length-strncpy (suc n) [] = ap suc (length-strncpy n [])
length-strncpy (suc n) (zero ∷ s) = ap suc (length-strncpy n [])
length-strncpy (suc n) (suc c ∷ s) = ap suc (length-strncpy n s)

-- Where the source has that many bytes and none is NUL, `strncpy` copies a prefix.
pub strncpy-take : (n : ℕ) (s : Bytes) → NoNul s → n ≤ length s → strncpy n s ≡ take n s
unfolding strncpy
strncpy-take zero s h le = refl
strncpy-take (suc n) [] h le = absurd (omega arith)
strncpy-take (suc n) (zero ∷ s) h le = absurd (omega arith)
strncpy-take (suc n) (suc c ∷ s) h le = ap (λ t. suc c ∷ t) (strncpy-take n s h.1 (omega arith))

pub drop-NoNul : (n : ℕ) (s : Bytes) → NoNul s → NoNul (drop n s)
drop-NoNul zero s h = h
drop-NoNul (suc n) [] h = tt
drop-NoNul (suc n) (c ∷ s) h = drop-NoNul n s h.1

-- `strncpy` from a stretch that is followed by more, or by NUL one byte too early.
pub strncpy-append : (n : ℕ) (s t : Bytes) → NoNul s → n ≤ length s → strncpy n (s ++ t) ≡ take n s
unfolding strncpy
strncpy-append zero s t h le = refl
strncpy-append (suc n) [] t h le = absurd (omega arith)
strncpy-append (suc n) (zero ∷ s) t h le = absurd (omega arith)
strncpy-append (suc n) (suc c ∷ s) t h le =
    ap (λ r. suc c ∷ r) (strncpy-append n s t h.1 (omega arith))

pub strncpy_one_more : (s t : Bytes) → NoNul s → strncpy (suc (length s)) (s ++ 0 ∷ t) ≡ s ++ 0 ∷ []
unfolding strncpy
strncpy_one_more [] t h = refl
strncpy_one_more (zero ∷ s) t h = absurd (omega arith)
strncpy_one_more (suc c ∷ s) t h = ap (λ r. suc c ∷ r) (strncpy_one_more s t h.1)
