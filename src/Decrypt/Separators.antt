-- ===== src/Decrypt/Separators.antt =====
-- On the text of a transaction the loops over the separators find the receiver and the sender.
use blockchain_crypto_messan.Common.{
  ℕ, ◌+◌, ◌-◌, ◌<◌, ◌≡◌, refl, ap, ◌∙◌, true, false, some, [], ◌∷◌, ◌++◌, length, drop, arith,
  append_assoc, ltb,
}
use blockchain_crypto_messan.Text.{Bytes}
use blockchain_crypto_messan.Transaction.{separator}
use blockchain_crypto_messan.Transaction.RoundTrip.{IsField, joined, field-at, drop-after, p₁, p₂}
use blockchain_crypto_messan.Decrypt.{first_two, second_third, second_name, names_in, named_by}

pub first_two-first :
    (s rest : Bytes) (ch begin : ℕ)
    → IsField s
    → first_two (s ++ separator ∷ rest) ch 0 begin
      ≡ first_two rest (ch + length s + 1) 1 (ch + length s + 1)
unfolding first_two
first_two-first [] rest ch begin h = ground arith
first_two-first (c ∷ s) rest ch begin h = ground (arith, first_two-first s rest (ch + 1) begin h.1)

pub first_two-second :
    (s rest : Bytes) (ch begin : ℕ)
    → IsField s
    → first_two (s ++ separator ∷ rest) ch 1 begin
      ≡ record { begin = begin; last = ch + length s - 1; stopped = true }
unfolding first_two
first_two-second [] rest ch begin h = ground arith
first_two-second (c ∷ s) rest ch begin h =
    ground (arith, first_two-second s rest (ch + 1) begin h.1)

pub second_third-first :
    (s rest : Bytes) (ch begin : ℕ)
    → IsField s
    → second_third (s ++ separator ∷ rest) ch 0 begin
      ≡ second_third rest (ch + length s + 1) 1 begin
unfolding second_third
second_third-first [] rest ch begin h = ground arith
second_third-first (c ∷ s) rest ch begin h =
    ground (arith, second_third-first s rest (ch + 1) begin h.1)

pub second_third-second :
    (s rest : Bytes) (ch begin : ℕ)
    → IsField s
    → second_third (s ++ separator ∷ rest) ch 1 begin
      ≡ second_third rest (ch + length s + 1) 2 (ch + length s + 1)
unfolding second_third
second_third-second [] rest ch begin h = ground arith
second_third-second (c ∷ s) rest ch begin h =
    ground (arith, second_third-second s rest (ch + 1) begin h.1)

second_third-third :
    (s rest : Bytes) (ch begin : ℕ)
    → IsField s
    → second_third (s ++ separator ∷ rest) ch 2 begin ≡ some (begin, ch + length s - 1)
unfolding second_third
second_third-third [] rest ch begin h = ground arith
second_third-third (c ∷ s) rest ch begin h =
    ground (arith, second_third-third s rest (ch + 1) begin h.1)

module _ (a b c d m : Bytes) (ha : IsField a) (hb : IsField b) (hc : IsField c)
    (nonempty_b : 0 < length b) (nonempty_c : 0 < length c) where
  abbrev dec : Bytes
  dec = joined a b c d m []

  at_b :
      drop (p₁ a) dec ≡ b ++ separator ∷ (c ++ separator ∷ (d ++ separator ∷ (m ++ separator ∷ [])))
  at_b = drop-after dec 0 a _ refl

  at_c : drop (p₂ a b) dec ≡ c ++ separator ∷ (d ++ separator ∷ (m ++ separator ∷ []))
  at_c = drop-after dec (p₁ a) b _ at_b

  first_two-dec :
      first_two dec 0 0 0 ≡ record { begin = p₁ a; last = p₁ a + length b - 1; stopped = true }
  first_two-dec = first_two-first a _ 0 0 ha ∙ first_two-second b _ (p₁ a) (p₁ a) hb

  second_third-dec : second_third (dec ++ 0 ∷ []) 0 0 0 ≡ some (p₂ a b, p₂ a b + length c - 1)
  second_third-dec =
      let buffer : dec ++ 0 ∷ [] ≡ joined a b c d m (0 ∷ []) = simp append_assoc in
      ap (λ r. second_third r 0 0 0) buffer
      ∙ second_third-first a _ 0 0 ha
      ∙ second_third-second b _ (p₁ a) 0 hb
      ∙ second_third-third c _ (p₂ a b) (p₂ a b) hc

  -- The first two fields behind the number are found.
  pub names_in-joined : names_in dec ≡ named_by b c
  unfolding names_in second_name
  names_in-joined =
      let size_b : p₁ a + length b - 1 - p₁ a + 1 ≡ length b = omega arith in
      let size_c : p₂ a b + length c - 1 - p₂ a b + 1 ≡ length c = omega arith in
      let no_gap_b : ltb (p₁ a + length b - 1) (p₁ a) ≡ false = ground arith in
      let no_gap_c : ltb (p₂ a b + length c - 1) (p₂ a b) ≡ false = ground arith in
      rw (
        first_two-dec,
        second_third-dec,
        no_gap_b,
        no_gap_c,
        size_b,
        size_c,
        field-at dec (p₁ a) b _ at_b hb,
        field-at dec (p₂ a b) c _ at_c hc,
      )
