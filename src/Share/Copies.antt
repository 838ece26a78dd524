-- ===== src/Share/Copies.antt =====
-- The copies of the parts that `share_file` (bcm-linux-console/Cpp_part.cpp) puts on servers, and how
-- `union_file` gets the parts back from them.
use blockchain_crypto_messan.Common.{
  ℕ, zero, suc, ◌+◌, ◌≤◌, ◌<◌, ◌≡◌, ◌≢◌, refl, sym, ap, ◌∙◌, ◌⊎◌, Bool-cases, inl, inr, true, false,
  none, some, List, [], ◌∷◌, arith, length, ◌==◌, ==_iff, if◌then◌else◌, All, text_eq_refl,
}
use blockchain_crypto_messan.Text.{Bytes}
use blockchain_crypto_messan.Share.{Parts, with_part, renamed, Entry, content_of}
use blockchain_crypto_messan.Share.Names.{Distinct, Agree, renamed-other}
use blockchain_crypto_messan.Share.Union.{
  refused, arrived, Servers, first_answer, stored_part, fetch_parts, check_parts,
}

-- The files after the parts from `i` on have come, without the one that has stayed.
abbrev pub filled : ℕ → ℕ → ℕ → Parts → Parts → Parts
filled part_here i zero sent files = files
filled part_here i (suc n) sent files =
    filled part_here (i + 1) n sent
      (if i == part_here then files else with_part i (content_of (sent i)) files)

filled-below :
    (part_here i n : ℕ) (sent files : Parts) (j : ℕ)
    → j < i
    → filled part_here i n sent files j ≡ files j
filled-below part_here i zero sent files j h = refl
filled-below part_here i (suc n) sent files j h =
    let other : (j == i) ≡ false = ground arith in
    filled-below part_here (i + 1) n sent _ j (omega arith) ∙ elim (Bool-cases (i == part_here)) [
      | inl stays ↦ rw stays refl
      | inr goes ↦ rw (goes, other) refl
    ]

pub filled-at :
    (part_here i n : ℕ) (sent files : Parts) (j : ℕ)
    → i ≤ j
    → j < i + n
    → j ≢ part_here
    → filled part_here i n sent files j ≡ some (content_of (sent j))
filled-at part_here i zero sent files j le lt ne = absurd (omega arith)
filled-at part_here i (suc n) sent files j le lt ne = elim (Bool-cases (j == i)) [
  | inl here ↦
      let at : i ≡ j = sym ((==_iff j i).0 here) in
      let goes : (i == part_here) ≡ false = ground arith in
      let self : (j == i) ≡ true = here in
      filled-below part_here (i + 1) n sent _ j (omega arith)
      ∙ rw (goes, self) (ap (λ k. some (content_of (sent k))) at)
  | inr later ↦ filled-at part_here (i + 1) n sent _ j (ground arith) (omega arith) ne
]

-- Every name that is given has its part.
pub renamed-filled :
    (names : List ℕ) (parts : List Bytes) (before : Parts)
    → Distinct names
    → length names ≡ length parts
    → All
        (λ name.
          renamed names parts before name ≡ some (content_of (renamed names parts before name)))
        names
unfolding renamed
renamed-filled [] parts before apart size = tt
renamed-filled (name ∷ names) [] before apart size = absurd (omega arith)
renamed-filled (name ∷ names) (part ∷ parts) before apart size =
    let self : (name == name) ≡ true = ground arith in
    let here : renamed names parts (with_part name part before) name ≡ some part =
      renamed-other name names parts (with_part name part before) apart.0 ∙ rw self refl in
    (rw here refl, renamed-filled names parts (with_part name part before) apart.1 (omega arith))

-- With the part that stayed, all files are as they were.
pub filled-Agree :
    (part_here n : ℕ) (sent : Parts) (names : List ℕ)
    → All (λ name. name < n) names
    → All (λ name. sent name ≡ some (content_of (sent name))) names
    → Agree names
        (with_part part_here
          (content_of (sent part_here))
          (filled part_here 0 n sent (λ name. none)))
        sent
filled-Agree part_here n sent [] small all = tt
filled-Agree part_here n sent (name ∷ names) small all = (
  elim (Bool-cases (name == part_here)) [
    | inl stays ↦
        rw stays
          (ap (λ k. some (content_of (sent k))) (sym ((==_iff name part_here).0 stays)) ∙ sym all.0)
    | inr goes ↦ rw goes (
        filled-at part_here 0 n sent (λ other. none) name (omega arith) (omega (arith, small.0))
          (λ same. ground arith)
        ∙ sym all.0)
  ],
  filled-Agree part_here n sent names small.1 all.1,
)

module _ (count_hash : Bytes → Bytes) (recieve_from_server : Servers) where
  -- An entry with the hash of the part, whose servers send the part or nothing.
  abbrev pub Copied : Bytes → Entry → Type 0
  Copied content e =
      (e.hash_file ≡ count_hash content)
      × ((first_answer recieve_from_server e ≡ arrived content)
          ⊎ (first_answer recieve_from_server e ≡ refused))

  abbrev pub Placed : ℕ → ℕ → Parts → List Entry → Type 0
  Placed part_here i sent [] = Unit
  Placed part_here i sent (e ∷ entries) =
      ((i ≡ part_here) ⊎ Copied (content_of (sent i)) e) × Placed part_here (i + 1) sent entries

  -- For each part that was sent at least one server answers.
  abbrev pub Reachable : ℕ → ℕ → List Entry → Type 0
  Reachable part_here i [] = Unit
  Reachable part_here i (e ∷ entries) =
      (i ≢ part_here → first_answer recieve_from_server e ≢ refused)
      × Reachable part_here (i + 1) entries

  came :
      (part_here i : ℕ) (sent files : Parts) (e : Entry)
      → (i ≡ part_here) ⊎ Copied (content_of (sent i)) e
      → (i ≢ part_here → first_answer recieve_from_server e ≢ refused)
      → (if i == part_here
          then some files
          else stored_part i (first_answer recieve_from_server e) files)
        ≡ some (if i == part_here then files else with_part i (content_of (sent i)) files)
  came part_here i sent files e (inl stays) answers =
      let here : (i == part_here) ≡ true = ground arith in rw here refl
  came part_here i sent files e (inr (h, inl came_back)) answers =
      elim (Bool-cases (i == part_here)) [
        | inl stays ↦ rw stays refl
        | inr goes ↦ rw (goes, came_back) refl
      ]
  came part_here i sent files e (inr (h, inr lost)) answers = elim (Bool-cases (i == part_here)) [
    | inl stays ↦ rw stays refl
    | inr goes ↦ absurd (answers (λ same. ground arith) lost)
  ]

  pub fetch_parts-filled :
      (part_here i : ℕ) (sent files : Parts) (entries : List Entry)
      → Placed part_here i sent entries
      → Reachable part_here i entries
      → fetch_parts recieve_from_server part_here i entries files
        ≡ some (filled part_here i (length entries) sent files)
  unfolding fetch_parts
  fetch_parts-filled part_here i sent files [] placed answers = refl
  fetch_parts-filled part_here i sent files (e ∷ entries) placed answers =
      rw (came part_here i sent files e placed.0 answers.0)
        (fetch_parts-filled part_here (i + 1) sent _ entries placed.1 answers.1)

  pub check_parts-true :
      (part_here i : ℕ) (sent files : Parts) (entries : List Entry)
      → Placed part_here i sent entries
      → ((j : ℕ)
          → i ≤ j
          → j < i + length entries
          → j ≢ part_here
          → files j ≡ some (content_of (sent j)))
      → check_parts count_hash part_here i entries files ≡ true
  unfolding check_parts
  check_parts-true part_here i sent files [] placed there = refl
  check_parts-true part_here i sent files (e ∷ entries) placed there =
      let rest : check_parts count_hash part_here (i + 1) entries files ≡ true =
        check_parts-true part_here (i + 1) sent files entries placed.1
          (λ j le lt ne. there j (omega arith) (omega arith) ne) in
      elim (Bool-cases (i == part_here)) [
        | inl stays ↦ rw (stays, rest) refl
        | inr goes ↦
            let ne : i ≢ part_here = λ same. ground arith in
            elim placed.0 [
              | inl same ↦ absurd (ne same)
              | inr copied ↦
                  rw
                    (
                      goes,
                      there i (omega arith) (omega arith) ne,
                      copied.0,
                      text_eq_refl (count_hash (content_of (sent i))),
                      rest,
                    )
                    refl
            ]
      ]
