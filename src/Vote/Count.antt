-- ===== src/Vote/Count.antt =====
-- The frequencies of the hashes, and the two searches in them, of `get_actual_blockchain_copy_i2pd`
-- (bcm-linux-console/Cpp_part.cpp).
use blockchain_crypto_messan.Common.{
  ℕ, zero, suc, ◌+◌, ◌≤◌, ◌<◌, ◌≡◌, ◌≢◌, refl, sym, ap, subst, ◌∙◌, ◌⊎◌, inl, inr, true, false, not,
  ◌&&◌, none, some, List, [], ◌∷◌, arith, length, get_or, ltb, ◌==◌, text_eq, text_eq→eq,
  text_eq→ne, text_eq_refl, Bool-cases, Option-cases,
}
use blockchain_crypto_messan.Text.{Bytes}
use blockchain_crypto_messan.Vote.{gag, count, frequence, find_maximum, first_with, find_new_max}

abbrev pub Answered : Bytes → Type 0
Answered h = text_eq h gag ≡ false

pub Answered_of_ne : (h : Bytes) → h ≢ gag → Answered h
Answered_of_ne h ne = elim (Bool-cases (text_eq h gag)) [
  | inl same ↦ absurd (ne (text_eq→eq h gag same))
  | inr other ↦ other
]

pub ne_of_Answered : (h : Bytes) → Answered h → h ≢ gag
ne_of_Answered h other = text_eq→ne h gag other

pub length-frequence : (hashes hs : List Bytes) → length (frequence hashes hs) ≡ length hs
length-frequence hashes [] = refl
length-frequence hashes (h ∷ hs) = ap suc (length-frequence hashes hs)

pub frequence-at :
    (hashes hs : List Bytes) (i : ℕ)
    → i < length hs
    → get_or (frequence hashes hs) i 0 ≡ count (get_or hs i []) hashes
frequence-at hashes [] i h = absurd (omega arith)
frequence-at hashes (x ∷ hs) zero h = refl
frequence-at hashes (x ∷ hs) (suc i) h = frequence-at hashes hs i (omega arith)

-- A hash in the list is counted.
pub count_pos : (hs : List Bytes) (i : ℕ) → i < length hs → 0 < count (get_or hs i []) hs
unfolding count
count_pos [] i h = absurd (omega arith)
count_pos (x ∷ hs) zero h = ground (arith, text_eq_refl x)
count_pos (x ∷ hs) (suc i) h = omega (arith, count_pos hs i (omega arith))

at_most_one : (a b x : Bytes) → a ≢ b → text_eq a x ≡ true → text_eq b x ≡ false
at_most_one a b x ne h = elim (Bool-cases (text_eq b x)) [
  | inl both ↦ absurd (ne (text_eq→eq a x h ∙ sym (text_eq→eq b x both)))
  | inr other ↦ other
]

-- Three different hashes are counted at different places.
pub count_apart :
    (a b c : Bytes) (hs : List Bytes)
    → a ≢ b
    → a ≢ c
    → b ≢ c
    → count a hs + count b hs + count c hs ≤ length hs
unfolding count
count_apart a b c [] p q r = omega arith
count_apart a b c (x ∷ hs) p q r = ground (
  arith,
  count_apart a b c hs p q r,
  at_most_one a b x p,
  at_most_one a c x q,
  at_most_one b c x r,
)

pub record IsFirstMaximum (fs : List ℕ) (m k : ℕ) : Type 0 where
  pub within : k < length fs
  pub is : get_or fs k 0 ≡ m
  pub most : (j : ℕ) → j < length fs → get_or fs j 0 ≤ m
  pub first : (j : ℕ) → j < k → get_or fs j 0 < m

-- Either nothing exceeds the maximum so far, or the first maximum is found.
record Scanned (i m id : ℕ) (fs : List ℕ) (r : ℕ × ℕ) : Type 0 where
  pub above : m ≤ r.0
  pub outcome :
      ((r.0 ≡ m) × (r.1 ≡ id) × ((j : ℕ) → j < length fs → get_or fs j 0 ≤ m))
      ⊎ ((m < r.0) × ((k : ℕ) × (r.1 ≡ i + k) × IsFirstMaximum fs r.0 k))

le_at :
    (m f : ℕ) (fs : List ℕ)
    → f ≤ m
    → ((j : ℕ) → j < length fs → get_or fs j 0 ≤ m)
    → (j : ℕ) → j < length (f ∷ fs)
    → get_or (f ∷ fs) j 0 ≤ m
le_at m f fs h hs zero lt = h
le_at m f fs h hs (suc j) lt = hs j (omega arith)

lt_at :
    (m f k : ℕ) (fs : List ℕ)
    → f < m
    → ((j : ℕ) → j < k → get_or fs j 0 < m)
    → (j : ℕ) → j < suc k
    → get_or (f ∷ fs) j 0 < m
lt_at m f k fs h hs zero lt = h
lt_at m f k fs h hs (suc j) lt = hs j (omega arith)

later :
    (f m k : ℕ) (fs : List ℕ) → f < m → IsFirstMaximum fs m k → IsFirstMaximum (f ∷ fs) m (suc k)
later f m k fs h best = record {
  within = omega arith;
  is = best.is;
  most = le_at m f fs (omega arith) best.most;
  first = lt_at m f k fs h best.first;
}

scan_larger :
    (i m id f : ℕ) (fs : List ℕ) (r : ℕ × ℕ)
    → m < f
    → Scanned (i + 1) f i fs r
    → Scanned i m id (f ∷ fs) r
scan_larger i m id f fs r h s = record {
  above = omega (arith, s.above);
  outcome = elim s.outcome [
    | inl (is, at, all) ↦ inr (
      omega arith,
      (
        0,
        omega arith,
        record {
          within = omega arith;
          is = sym is;
          most = le_at r.0 f fs (omega arith) (λ j lt. omega (arith, all j lt));
          first = λ j lt. absurd (omega arith);
        },
      ),
    )
    | inr (above, (k, at, best)) ↦
        inr (omega arith, (suc k, omega arith, later f r.0 k fs above best))
  ];
}

scan_smaller :
    (i m id f : ℕ) (fs : List ℕ) (r : ℕ × ℕ)
    → f ≤ m
    → Scanned (i + 1) m id fs r
    → Scanned i m id (f ∷ fs) r
scan_smaller i m id f fs r h s = record {
  above = s.above;
  outcome = elim s.outcome [
    | inl (is, at, all) ↦ inl (is, at, le_at m f fs h all)
    | inr (above, (k, at, best)) ↦
        inr (above, (suc k, omega arith, later f r.0 k fs (omega arith) best))
  ];
}

find_maximum-Scanned : (i m id : ℕ) (fs : List ℕ) → Scanned i m id fs (find_maximum i m id fs)
unfolding find_maximum
find_maximum-Scanned i m id [] = record {
  above = omega arith;
  outcome = inl (refl, refl, λ j h. absurd (omega arith));
}
find_maximum-Scanned i m id (f ∷ fs) = elim (Bool-cases (ltb m f)) [
  | inl larger ↦
      rw larger (scan_larger i m id f fs _ (ground arith) (find_maximum-Scanned (i + 1) f i fs))
  | inr smaller ↦
      rw smaller (scan_smaller i m id f fs _ (ground arith) (find_maximum-Scanned (i + 1) m id fs))
]

-- The scan of frequencies that are not all zero finds the first of the largest.
pub find_maximum_lem :
    (fs : List ℕ) (i : ℕ)
    → i < length fs
    → 0 < get_or fs i 0
    → IsFirstMaximum fs (find_maximum 0 0 0 fs).0 (find_maximum 0 0 0 fs).1
find_maximum_lem fs i h some_votes = elim (find_maximum-Scanned 0 0 0 fs).outcome [
  | inl (is, at, all) ↦ absurd (omega (arith, all i h))
  | inr (above, (k, at, best)) ↦
      let here : k ≡ (find_maximum 0 0 0 fs).1 = omega arith in
      subst (λ j. IsFirstMaximum fs (find_maximum 0 0 0 fs).0 j) here best
]

-- The place `k` is the first of those that answered and have the frequency `n`.
pub record IsFirstWith (n : ℕ) (fs : List ℕ) (hs : List Bytes) (k : ℕ) : Type 0 where
  pub within : k < length hs
  pub answered : Answered (get_or hs k [])
  pub is : get_or fs k 0 ≡ n
  pub first : (j : ℕ) → j < k → Answered (get_or hs j []) → get_or fs j 0 ≢ n

first_at :
    (n f k : ℕ) (fs : List ℕ) (h : Bytes) (hs : List Bytes)
    → (f == n && not (text_eq h gag)) ≡ false
    → ((j : ℕ) → j < k → Answered (get_or hs j []) → get_or fs j 0 ≢ n)
    → (j : ℕ) → j < suc k
    → Answered (get_or (h ∷ hs) j [])
    → get_or (f ∷ fs) j 0 ≢ n
first_at n f k fs h hs passed rest zero lt answered = λ same. ground arith
first_at n f k fs h hs passed rest (suc j) lt answered = rest j (omega arith) answered

first_with-some :
    (n i : ℕ) (fs : List ℕ) (hs : List Bytes) (r : ℕ)
    → first_with n i fs hs ≡ some r
    → (k : ℕ) × (r ≡ i + k) × IsFirstWith n fs hs k
unfolding first_with
first_with-some n i [] hs r e = cc
first_with-some n i (f ∷ fs) [] r e = cc
first_with-some n i (f ∷ fs) (h ∷ hs) r e = elim (Bool-cases (f == n && not (text_eq h gag))) [
  | inl found ↦ (
    0,
    ground arith,
    record {
      within = omega arith;
      answered = ground arith;
      is = ground arith;
      first = λ j lt. absurd (omega arith);
    },
  )
  | inr passed ↦
      let (k, at, w) = first_with-some n (i + 1) fs hs r (ground arith) in
      (
        suc k,
        omega arith,
        record {
          within = omega (arith, w.within);
          answered = w.answered;
          is = w.is;
          first = first_at n f k fs h hs passed w.first;
        },
      )
]

first_with-none :
    (n i : ℕ) (fs : List ℕ) (hs : List Bytes)
    → length fs ≡ length hs
    → first_with n i fs hs ≡ none
    → (j : ℕ) → j < length hs
    → Answered (get_or hs j [])
    → get_or fs j 0 ≢ n
unfolding first_with
first_with-none n i [] hs e out j lt answered = absurd (omega arith)
first_with-none n i (f ∷ fs) [] e out j lt answered = absurd (omega arith)
first_with-none n i (f ∷ fs) (h ∷ hs) e out zero lt answered = λ same. ground arith
first_with-none n i (f ∷ fs) (h ∷ hs) e out (suc j) lt answered =
    first_with-none n (i + 1) fs hs (omega arith) (ground arith) j (omega arith) answered

-- The place `k` is the first of those that answered with the largest frequency up to `n`.
pub record IsBestUpTo (n : ℕ) (fs : List ℕ) (hs : List Bytes) (k : ℕ) : Type 0 where
  pub within : k < length hs
  pub answered : Answered (get_or hs k [])
  pub bounded : get_or fs k 0 ≤ n
  pub most :
      (j : ℕ)
      → j < length hs
      → Answered (get_or hs j [])
      → get_or fs j 0 ≤ n
      → get_or fs j 0 ≤ get_or fs k 0
  pub first :
      (j : ℕ)
      → j < k
      → Answered (get_or hs j [])
      → get_or fs j 0 ≤ n
      → get_or fs j 0 < get_or fs k 0

at_the_bound :
    (n : ℕ) (fs : List ℕ) (hs : List Bytes) (k : ℕ) → IsFirstWith n fs hs k → IsBestUpTo n fs hs k
at_the_bound n fs hs k w = record {
  within = w.within;
  answered = w.answered;
  bounded = omega (arith, w.is);
  most = λ j lt answered le. omega (arith, w.is);
  first = λ j lt answered le. ground (arith, w.first j lt answered, w.is);
}

below_the_bound :
    (n : ℕ) (fs : List ℕ) (hs : List Bytes) (k : ℕ)
    → ((j : ℕ) → j < length hs → Answered (get_or hs j []) → get_or fs j 0 ≢ suc n)
    → IsBestUpTo n fs hs k
    → IsBestUpTo (suc n) fs hs k
below_the_bound n fs hs k free b = record {
  within = b.within;
  answered = b.answered;
  bounded = omega (arith, b.bounded);
  most = λ j lt answered le. b.most j lt answered (ground (arith, free j lt answered));
  first = λ j lt answered le.
      b.first j lt answered (ground (arith, free j (omega (arith, b.within)) answered));
}

pub find_new_max_lem :
    (n : ℕ) (fs : List ℕ) (hs : List Bytes) (id i : ℕ)
    → length fs ≡ length hs
    → i < length hs
    → Answered (get_or hs i [])
    → 0 < get_or fs i 0
    → get_or fs i 0 ≤ n
    → IsBestUpTo n fs hs (find_new_max n fs hs id)
unfolding find_new_max
find_new_max_lem zero fs hs id i e lt answered some_votes le = absurd (omega arith)
find_new_max_lem (suc n) fs hs id i e lt answered some_votes le =
    elim (Option-cases (first_with (suc n) 0 fs hs)) [
      | inl out ↦
          let free : (j : ℕ) → j < length hs → Answered (get_or hs j []) → get_or fs j 0 ≢ suc n =
            first_with-none (suc n) 0 fs hs e out in
          rw out (
            below_the_bound n fs hs _ free (
              find_new_max_lem n fs hs id i e lt answered some_votes
                (ground (arith, free i lt answered))))
      | inr (r, found) ↦
          let (k, at, w) = first_with-some (suc n) 0 fs hs r found in
          let here : k ≡ r = omega arith in
          rw found (subst (λ j. IsBestUpTo (suc n) fs hs j) here (at_the_bound (suc n) fs hs k w))
    ]
