-- ===== src/Share/Names.antt =====
-- The names of the parts in `share_file` (bcm-linux-console/Cpp_part.cpp): a permutation, which the
-- renaming of `union_file` undoes.
use blockchain_crypto_messan.Common.{
  ℕ, zero, suc, ◌+◌, ◌≤◌, ◌<◌, ◌≡◌, ◌≢◌, refl, sym, ap, subst, ◌∙◌, true, false, some, List, [],
  ◌∷◌, arith, length, get_or, ◌==◌, All,
}
use blockchain_crypto_messan.Text.{Bytes}
use blockchain_crypto_messan.Program.{returned, >>=-inv, pure-inv}
use blockchain_crypto_messan.Share.{
  Draws, rand_mod, numbers, without, draw_names, Parts, with_part, renamed,
}
use blockchain_crypto_messan.Share.Cut.{rand_mod-lt}
use blockchain_crypto_messan.Share.Union.{renamed_back, without_part}

abbrev pub Distinct : List ℕ → Type 0
Distinct [] = Unit
Distinct (x ∷ xs) = All (λ y. x ≢ y) xs × Distinct xs

get_or-All : (Q : ℕ → Type 0) (i : ℕ) (st : List ℕ) → i < length st → All Q st → Q (get_or st i 0)
get_or-All Q i [] lt h = absurd (omega arith)
get_or-All Q zero (x ∷ st) lt h = h.0
get_or-All Q (suc i) (x ∷ st) lt h = get_or-All Q i st (omega arith) h.1

without-All : (Q : ℕ → Type 0) (i : ℕ) (st : List ℕ) → All Q st → All Q (without i st)
unfolding without
without-All Q i [] h = tt
without-All Q zero (x ∷ st) h = h.1
without-All Q (suc i) (x ∷ st) h = (h.0, without-All Q i st h.1)

without-Distinct :
    (i : ℕ) (st : List ℕ)
    → i < length st
    → Distinct st
    → All (λ y. get_or st i 0 ≢ y) (without i st) × Distinct (without i st)
unfolding without
without-Distinct i [] lt h = absurd (omega arith)
without-Distinct zero (x ∷ st) lt h = h
without-Distinct (suc i) (x ∷ st) lt h =
    let ih : All (λ y. get_or st i 0 ≢ y) (without i st) × Distinct (without i st) =
      without-Distinct i st (omega arith) h.1 in
    let apart : x ≢ get_or st i 0 = get_or-All (λ y. x ≢ y) i st (omega arith) h.0 in
    ((λ same. apart (sym same), ih.0), (without-All (λ y. x ≢ y) i st h.0, ih.1))

-- The names that are drawn have each property that the names of the set have.
pub draw_names-All :
    (Q : ℕ → Type 0) (count : ℕ) (st : List ℕ) (draws rest : Draws) (names : List ℕ)
    → draw_names count st draws ≡ (returned names, rest)
    → All Q st
    → All Q names
unfolding draw_names
draw_names-All Q zero st draws rest names h all = subst (λ ns. All Q ns) (pure-inv [] draws h) tt
draw_names-All Q (suc count) st draws rest names h all =
    let (c, d₁, e₁, h₁) = >>=-inv (rand_mod (length st)) _ draws h in
    let (more, d₂, e₂, h₂) = >>=-inv (draw_names count (without c st)) _ d₁ h₁ in
    subst (λ ns. All Q ns) (pure-inv _ d₂ h₂)
      (
        get_or-All Q c st (rand_mod-lt (length st) draws d₁ c e₁) all,
        draw_names-All Q count (without c st) d₁ d₂ more e₂ (without-All Q c st all),
      )

pub draw_names-Distinct :
    (count : ℕ) (st : List ℕ) (draws rest : Draws) (names : List ℕ)
    → draw_names count st draws ≡ (returned names, rest)
    → Distinct st
    → Distinct names × (length names ≡ count)
unfolding draw_names
draw_names-Distinct zero st draws rest names h apart =
    subst (λ ns. Distinct ns × (length ns ≡ zero)) (pure-inv [] draws h) (tt, refl)
draw_names-Distinct (suc count) st draws rest names h apart =
    let (c, d₁, e₁, h₁) = >>=-inv (rand_mod (length st)) _ draws h in
    let (more, d₂, e₂, h₂) = >>=-inv (draw_names count (without c st)) _ d₁ h₁ in
    let left : All (λ y. get_or st c 0 ≢ y) (without c st) × Distinct (without c st) =
      without-Distinct c st (rand_mod-lt (length st) draws d₁ c e₁) apart in
    let ih : Distinct more × (length more ≡ count) =
      draw_names-Distinct count (without c st) d₁ d₂ more e₂ left.1 in
    subst (λ ns. Distinct ns × (length ns ≡ suc count)) (pure-inv _ d₂ h₂)
      (
        (draw_names-All (λ y. get_or st c 0 ≢ y) count (without c st) d₁ d₂ more e₂ left.0, ih.0),
        ap suc ih.1,
      )

numbers_above : (k from count : ℕ) → k < from → All (λ y. k ≢ y) (numbers from count)
unfolding numbers
numbers_above k from zero h = tt
numbers_above k from (suc count) h =
    (λ same. absurd (omega arith), numbers_above k (from + 1) count (omega arith))

pub numbers-Distinct : (from count : ℕ) → Distinct (numbers from count)
unfolding numbers
numbers-Distinct from zero = tt
numbers-Distinct from (suc count) =
    (numbers_above from (from + 1) count (omega arith), numbers-Distinct (from + 1) count)

pub numbers_bounds :
    (bound from count : ℕ) → from + count ≤ bound → All (λ y. y < bound) (numbers from count)
unfolding numbers
numbers_bounds bound from zero h = tt
numbers_bounds bound from (suc count) h =
    (omega arith, numbers_bounds bound (from + 1) count (omega arith))

-- A name that is not given again keeps its part.
pub renamed-other :
    (name : ℕ) (names : List ℕ) (parts : List Bytes) (files : Parts)
    → All (λ y. name ≢ y) names
    → renamed names parts files name ≡ files name
unfolding renamed
renamed-other name [] parts files h = refl
renamed-other name (other ∷ names) [] files h = refl
renamed-other name (other ∷ names) (part ∷ parts) files h =
    let differs : (name == other) ≡ false = ground (arith, h.0) in
    renamed-other name names parts _ h.1 ∙ rw differs refl

-- The files agree on the names of the list.
abbrev pub Agree : List ℕ → Parts → Parts → Type 0
Agree names files others = All (λ name. files name ≡ others name) names

without-Agree :
    (x : ℕ) (names : List ℕ) (files others : Parts)
    → All (λ y. x ≢ y) names
    → Agree names files others
    → Agree names (without_part x files) others
without-Agree x [] files others apart h = tt
without-Agree x (y ∷ names) files others apart h =
    let differs : (y == x) ≡ false = ground (arith, apart.0) in
    (rw differs h.0, without-Agree x names files others apart.1 h.1)

-- Renaming the parts by different names and back gives the parts, in their order.
pub renamed_back-renamed :
    (names : List ℕ) (parts : List Bytes) (before files : Parts)
    → Distinct names
    → length names ≡ length parts
    → Agree names files (renamed names parts before)
    → renamed_back names files ≡ some parts
unfolding renamed_back renamed
renamed_back-renamed [] [] before files apart size agree = refl
renamed_back-renamed [] (part ∷ parts) before files apart size agree = absurd (omega arith)
renamed_back-renamed (name ∷ names) [] before files apart size agree = absurd (omega arith)
renamed_back-renamed (name ∷ names) (part ∷ parts) before files apart size agree =
    let self : (name == name) ≡ true = ground arith in
    let here : files name ≡ some part =
      agree.0
      ∙ renamed-other name names parts (with_part name part before) apart.0
      ∙ rw self refl in
    rw
      (
        here,
        renamed_back-renamed names parts (with_part name part before) (without_part name files)
            apart.1 (omega arith) (without-Agree name names files _ apart.0 agree.1),
      )
      refl
