-- ===== src/Decrypt/Overrun.antt =====
-- A decrypted buffer with two separators only, which the second loop of `try_decrypt`
-- (bcm-linux-console/Cpp_part.cpp) runs behind: its test is on the counter of the first loop.
use blockchain_crypto_messan.Common.{
  ℕ, ◌+◌, ◌-◌, ◌≤◌, ◌<◌, ◌≡◌, ◌≢◌, refl, ap, ◌∙◌, false, none, List, [], ◌∷◌, ◌++◌, map, length,
  arith, append_assoc, ltb, All, All-append,
}
use blockchain_crypto_messan.Text.{Bytes}
use blockchain_crypto_messan.Pad.{xor_bytes}
use blockchain_crypto_messan.Pad.Laws.{IsAscii, IsHigh}
use blockchain_crypto_messan.Sql.Engine.{Engine, IsSqlite, Node}
use blockchain_crypto_messan.Keys.{buf_size}
use blockchain_crypto_messan.Transaction.{separator}
use blockchain_crypto_messan.Transaction.RoundTrip.{IsField, All-weaken, p₁}
use blockchain_crypto_messan.Decrypt.{
  max_number_of_users, second_third, second_name, names_in, reads_behind, judge, try_decrypt,
}
use blockchain_crypto_messan.Decrypt.Roster.{Peer, Known, PassedOver}
use blockchain_crypto_messan.Decrypt.Faulting.{Faults, try_decrypt-reads_behind}
use blockchain_crypto_messan.Decrypt.Delivery.{
  IsWord, IsWord-IsField, IsWord-IsAscii, ended, stretch, cipher-NoNul, attempt-cipher,
}
use blockchain_crypto_messan.Decrypt.Separators.{
  first_two-first, first_two-second, second_third-first, second_third-second,
}

second_third-none :
    (s : Bytes) (ch begin : ℕ) → All (λ c. c ≢ separator) s → second_third s ch 2 begin ≡ none
unfolding second_third
second_third-none [] ch begin h = refl
second_third-none (c ∷ s) ch begin h = ground (arith, second_third-none s (ch + 1) begin h.1)

module _ (a b c : Bytes) (ha : IsField a) (hb : IsField b) (hc : IsField c)
    (named : 0 < length b) where
  abbrev pub two_separators : Bytes
  two_separators = a ++ separator ∷ (b ++ separator ∷ c)

  second_third-behind : second_third (two_separators ++ 0 ∷ []) 0 0 0 ≡ none
  second_third-behind =
      let buffer : two_separators ++ 0 ∷ [] ≡ a ++ separator ∷ (b ++ separator ∷ (c ++ 0 ∷ [])) =
        simp append_assoc in
      ap (λ r. second_third r 0 0 0) buffer
      ∙ second_third-first a _ 0 0 ha
      ∙ second_third-second b _ (p₁ a) 0 hb
      ∙ second_third-none (c ++ 0 ∷ []) _ _
          (All-append _ c (0 ∷ []) (All-weaken c (λ x h. h.1) hc) ((omega arith), tt))

  judge-overrun :
      (my_name user : Bytes)
      → judge my_name user two_separators (names_in two_separators) ≡ reads_behind
  unfolding names_in second_name judge
  judge-overrun my_name user =
      let no_gap : ltb (p₁ a + length b - 1) (p₁ a) ≡ false = ground arith in
      rw (
        first_two-first a (b ++ separator ∷ c) 0 0 ha,
        first_two-second b c (p₁ a) (p₁ a) hb,
        second_third-behind,
        no_gap,
      )

-- A message that opens, under the key of the first of ten correspondents at most whose key does
-- not pass over it, to three ASCII texts between exactly two separators, none with NUL or a
-- separator of its own and the second one not empty, makes try_decrypt read behind the decrypted
-- buffer, if that key has bytes from 128 to 255, enough of them left and its offset within the
-- buffer of a key.
pub try_decrypt-overrun :
    (e : Engine) (q : IsSqlite e) (n : Node) (my_name a b c : Bytes) (before : List Peer) (x : Peer)
    (after : List Peer)
    → map (λ r. r.user_name) n.general ≡ map (λ y. y.user) (before ++ x ∷ after)
    → length (before ++ x ∷ after) ≤ max_number_of_users
    → Known e q n (before ++ x ∷ after)
    → IsHigh x.key
    → x.seek < buf_size
    → IsWord a
    → IsWord b
    → IsWord c
    → 0 < length b
    → x.seek + length (a ++ separator ∷ (b ++ separator ∷ c)) ≤ length x.key
    → PassedOver e q n my_name
        (xor_bytes
          (a ++ separator ∷ (b ++ separator ∷ c))
          (stretch x.key x.seek (length (a ++ separator ∷ (b ++ separator ∷ c)))))
        before
    → Faults e q n (
        try_decrypt e my_name (
          xor_bytes
            (a ++ separator ∷ (b ++ separator ∷ c))
            (stretch x.key x.seek (length (a ++ separator ∷ (b ++ separator ∷ c))))))
try_decrypt-overrun e q n my_name a b c before x after names few known high fits ha hb hc named
      enough over =
    let text = a ++ separator ∷ (b ++ separator ∷ c) in
    let ascii : IsAscii text =
      ended a _ (IsWord-IsAscii a ha) (ended b c (IsWord-IsAscii b hb) (IsWord-IsAscii c hc)) in
    try_decrypt-reads_behind e q n my_name (xor_bytes text (stretch x.key x.seek (length text)))
      before x after (cipher-NoNul x.key text x.seek high ascii enough) names few known over
      (attempt-cipher x.key text x.seek high ascii enough my_name x.user fits
        ∙ judge-overrun a b c (IsWord-IsField a ha) (IsWord-IsField b hb) (IsWord-IsField c hc)
            named my_name x.user)
