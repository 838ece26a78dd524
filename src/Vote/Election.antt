-- ===== src/Vote/Election.antt =====
-- Which hash `get_actual_blockchain_copy_i2pd` (bcm-linux-console/Cpp_part.cpp) elects.
use blockchain_crypto_messan.Common.{
  ℕ, ◌+◌, ◌≤◌, ◌<◌, ◌≡◌, ◌≢◌, ◌↔◌, sym, ap, subst, ◌∙◌, inl, inr, List, [], arith, length, get_or,
  text_eq, text_eq→eq, text_eq→ne, Bool-cases, dec_lt,
}
use blockchain_crypto_messan.Text.{Bytes}
use blockchain_crypto_messan.Vote.{gag, count, frequence, find_maximum, elect}
use blockchain_crypto_messan.Vote.Count.{
  Answered_of_ne, ne_of_Answered, length-frequence, frequence-at, count_pos, count_apart,
  IsFirstMaximum, find_maximum_lem, IsBestUpTo, find_new_max_lem,
}

abbrev pub hash_at : List Bytes → ℕ → Bytes
hash_at hashes i = get_or hashes i []

abbrev pub votes : List Bytes → ℕ → ℕ
votes hashes i = count (hash_at hashes i) hashes

-- What the vote is meant to find: the first peer, among those that answered, whose hash no other
-- hash of those outnumbers.
pub record IsElected (hashes : List Bytes) (w : ℕ) : Type 0 where
  pub within : w < length hashes
  pub answered : hash_at hashes w ≢ gag
  pub most : (j : ℕ) → j < length hashes → hash_at hashes j ≢ gag → votes hashes j ≤ votes hashes w
  pub first : (j : ℕ) → j < w → hash_at hashes j ≢ gag → votes hashes j < votes hashes w

module _ (hashes : List Bytes) where
  votes_at : (j : ℕ) → j < length hashes → get_or (frequence hashes hashes) j 0 ≡ votes hashes j
  votes_at j h = frequence-at hashes hashes j h

  first_pass :
      (m w : ℕ)
      → IsFirstMaximum (frequence hashes hashes) m w
      → hash_at hashes w ≢ gag
      → IsElected hashes w
  first_pass m w b answered =
      let size : length (frequence hashes hashes) ≡ length hashes =
        length-frequence hashes hashes in
      let within : w < length hashes = omega (arith, b.within) in
      record {
        within = within;
        answered = answered;
        most = λ j lt ne.
            omega (arith, votes_at j lt, votes_at w within, b.is, b.most j (omega arith));
        first = λ j lt ne.
            omega (arith, votes_at j (omega arith), votes_at w within, b.is, b.first j lt);
      }

  second_pass :
      (m w : ℕ)
      → ((j : ℕ) → j < length hashes → votes hashes j ≤ m)
      → IsBestUpTo m (frequence hashes hashes) hashes w
      → IsElected hashes w
  second_pass m w bound b = record {
    within = b.within;
    answered = ne_of_Answered _ b.answered;
    most = λ j lt ne. omega (
      arith,
      votes_at j lt,
      votes_at w b.within,
      b.most j lt (Answered_of_ne _ ne) (omega (arith, votes_at j lt, bound j lt)),
    );
    first = λ j lt ne.
        let lt' : j < length hashes = omega (arith, b.within) in
        omega (
          arith,
          votes_at j lt',
          votes_at w b.within,
          b.first j lt (Answered_of_ne _ ne) (omega (arith, votes_at j lt', bound j lt')),
        );
  }

  pub elect-IsElected :
      (i : ℕ) → i < length hashes → hash_at hashes i ≢ gag → IsElected hashes (elect hashes)
  unfolding elect
  elect-IsElected i h ne =
      let size : length (frequence hashes hashes) ≡ length hashes =
        length-frequence hashes hashes in
      let some_votes : 0 < get_or (frequence hashes hashes) i 0 =
        omega (arith, votes_at i h, count_pos hashes i h) in
      let b : IsFirstMaximum (frequence hashes hashes)
          (find_maximum 0 0 0 (frequence hashes hashes)).0
          (find_maximum 0 0 0 (frequence hashes hashes)).1 =
        find_maximum_lem (frequence hashes hashes) i (omega arith) some_votes in
      elim (Bool-cases
        (text_eq (hash_at hashes (find_maximum 0 0 0 (frequence hashes hashes)).1) gag)) [
          | inl silent ↦ rw silent (
              second_pass _ _ (λ j lt. omega (arith, votes_at j lt, b.most j (omega arith)))
                (find_new_max_lem (find_maximum 0 0 0 (frequence hashes hashes)).0
                  (frequence hashes hashes) hashes _ i size h (Answered_of_ne _ ne) some_votes
                  (b.most i (omega arith))))
          | inr answered ↦ rw answered (first_pass _ _ b (ne_of_Answered _ answered))
        ]

  -- There is but one such peer.
  pub IsElected-unique : (v w : ℕ) → IsElected hashes v → IsElected hashes w → v ≡ w
  IsElected-unique v w a b = elim (dec_lt v w) [
    | yes lt ↦ absurd (omega (arith, b.first v lt a.answered, a.most w b.within b.answered))
    | no ge ↦ elim (dec_lt w v) [
      | yes gt ↦ absurd (omega (arith, a.first w gt b.answered, b.most v a.within a.answered))
      | no le ↦ omega arith
    ]
  ]

  -- If any peer answered, the peer chosen is exactly the one that the vote is meant to find: the
  -- first whose hash has the most votes among the peers that answered.
  pub elect_lem :
      (i : ℕ)
      → i < length hashes
      → hash_at hashes i ≢ gag
      → (w : ℕ) → IsElected hashes w ↔ (elect hashes ≡ w)
  elect_lem i h ne w = (
    λ meant. IsElected-unique _ _ (elect-IsElected i h ne) meant,
    λ is. subst (λ k. IsElected hashes k) is (elect-IsElected i h ne),
  )

  -- A hash of a peer that answered, which more than half of the peers that answered have, is the
  -- hash of the chosen peer.
  pub elect-majority :
      (h : Bytes) (i : ℕ)
      → i < length hashes
      → hash_at hashes i ≡ h
      → h ≢ gag
      → length hashes < count h hashes + count h hashes + count gag hashes
      → hash_at hashes (elect hashes) ≡ h
  elect-majority h i lt is ne more =
      let w : IsElected hashes (elect hashes) = elect-IsElected i lt (λ same. ne (sym is ∙ same)) in
      elim (Bool-cases (text_eq (hash_at hashes (elect hashes)) h)) [
        | inl same ↦ text_eq→eq _ _ same
        | inr other ↦
            let differs : hash_at hashes (elect hashes) ≢ h = text_eq→ne _ _ other in
            absurd (
              omega (
                arith,
                count_apart h (hash_at hashes (elect hashes)) gag hashes
                    (λ same. differs (sym same)) ne w.answered,
                w.most i lt (λ same. ne (sym is ∙ same)),
                ap (λ (t : Bytes). count t hashes) is,
              ))
      ]
