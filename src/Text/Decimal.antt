-- ===== src/Text/Decimal.antt =====
-- `std::to_string` and `atoi`, which carry the numbers of the program through texts and SQL.
use blockchain_crypto_messan.Common.{
  ℕ, zero, suc, ◌+◌, ◌-◌, ◌*◌, ◌/◌, ◌%◌, ◌≤◌, ◌<◌, ◌≡◌, refl, ap, ◌∙◌, inl, inr, Bool, ◌&&◌, ◌||◌,
  true, false, List, [], ◌∷◌, arith, dec_lt, leb, ◌==◌, if◌then◌else◌, Bool-cases, All,
}
use blockchain_crypto_messan.Common.Int.{ℤ, pos, negsuc}

-- The decimal digits of `n` in front of `rest`; a fuel of `n + 1` divides `n` down to 0.
digits : ℕ → ℕ → List ℕ → List ℕ
digits zero n rest = rest
digits (suc fuel) n rest =
    let more = digits fuel (n / 10) ((48 + n % 10) ∷ rest) in
    if n / 10 == 0 then (48 + n % 10) ∷ rest else more

-- `std::to_string(int)`
unfoldable pub to_string : ℤ → List ℕ
unfolding digits
to_string (pos n) = digits (suc n) n []
to_string (negsuc n) = b'-' ∷ digits (suc (suc n)) (suc n) []

abbrev pub IsDigit : ℕ → Type 0
IsDigit c = (48 ≤ c) × (c ≤ 57)

is_digit : ℕ → Bool
is_digit c = leb 48 c && leb c 57

-- Digits are read until the first other byte.
read : ℕ → List ℕ → ℕ
unfolding is_digit
read n [] = n
read n (c ∷ s) = let more = read (n * 10 + (c - 48)) s in if is_digit c then more else n

is_space : ℕ → Bool
is_space c = c == 32 || (leb 9 c && leb c 13)

negated : ℕ → ℤ
negated zero = pos 0
negated (suc n) = negsuc n

-- `atoi`: white space, a sign, digits.
unfoldable pub atoi : List ℕ → ℤ
unfolding is_space read negated
atoi [] = pos 0
atoi (c ∷ s) =
    let more = atoi s in
    if is_space c
    then more
    else if c == b'-'
    then negated (read 0 s)
    else if c == b'+'
    then pos (read 0 s)
    else pos (read 0 (c ∷ s))

-- Every byte printed is a digit.
digits-IsDigit : (fuel n : ℕ) (rest : List ℕ) → All IsDigit rest → All IsDigit (digits fuel n rest)
unfolding digits
digits-IsDigit zero n rest h = h
digits-IsDigit (suc fuel) n rest h = elim (Bool-cases (n / 10 == 0)) [
  | inl done ↦ rw done ((omega arith, omega arith), h)
  | inr more ↦ rw more (digits-IsDigit fuel (n / 10) _ ((omega arith, omega arith), h))
]

read_digit : (m d : ℕ) (rest : List ℕ) → d < 10 → read m ((48 + d) ∷ rest) ≡ read (m * 10 + d) rest
unfolding read
read_digit m d rest h =
    let value : 48 + d - 48 ≡ d = omega arith in
    let digit : is_digit (48 + d) ≡ true = ground arith in rw (value, digit)

-- Reading the last digit of `n` after the digits before it gives `n`.
read_last : (n : ℕ) (rest : List ℕ) → read (n / 10) ((48 + n % 10) ∷ rest) ≡ read n rest
read_last n rest =
    read_digit (n / 10) (n % 10) rest (omega arith) ∙ ap (λ k. read k rest) (omega arith)

read-digits : (fuel n : ℕ) (rest : List ℕ) → n < fuel → read 0 (digits fuel n rest) ≡ read n rest
unfolding digits
read-digits zero n rest h = absurd (omega arith)
read-digits (suc fuel) n rest h = elim (dec_lt 0 (n / 10)) [
  | yes more ↦
      let again : (n / 10 == 0) ≡ false = ground arith in
      rw again (read-digits fuel (n / 10) _ (omega arith) ∙ read_last n rest)
  | no done ↦
      let one : (n / 10 == 0) ≡ true = ground arith in
      let none_before : 0 ≡ n / 10 = omega arith in
      rw one (ap (λ k. read k ((48 + n % 10) ∷ rest)) none_before ∙ read_last n rest)
]

pub to_string-IsDigit : (n : ℕ) → All IsDigit (to_string (pos n))
unfolding to_string
to_string-IsDigit n = digits-IsDigit (suc n) n [] tt

read_nil : (n : ℕ) → read n [] ≡ n
unfolding read
read_nil n = refl

atoi-digits : (s : List ℕ) → All IsDigit s → atoi s ≡ pos (read 0 s)
unfolding atoi
atoi-digits [] h = refl
atoi-digits (c ∷ s) h = ground arith

-- The decimal print of a number is read back by `atoi`.
pub atoi-to_string : (n : ℕ) → atoi (to_string (pos n)) ≡ pos n
atoi-to_string n =
    atoi-digits _ (to_string-IsDigit n)
    ∙ ap pos (unfold to_string in read-digits (suc n) n [] (omega arith) ∙ read_nil n)

atoi_negative : atoi (to_string (negsuc 119)) ≡ negsuc 119
unfolding atoi to_string
atoi_negative = refl
