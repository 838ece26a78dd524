-- ===== src/Share/Cut.antt =====
-- The sizes of the parts that `share_file` (bcm-linux-console/Cpp_part.cpp) draws, and the parts.
use blockchain_crypto_messan.Common.{
  ℕ, zero, suc, ◌+◌, ◌-◌, ◌*◌, ◌/◌, ◌≤◌, ◌<◌, ◌≡◌, refl, ap, subst, ◌∙◌, Bool-cases, inl, inr, List,
  [], ◌∷◌, ◌++◌, arith, length, take, drop, take-drop, length-drop, length-append, ◌==◌,
}
use blockchain_crypto_messan.Text.{Bytes}
use blockchain_crypto_messan.Program.{returned, >>=-inv, pure-inv}
use blockchain_crypto_messan.Share.{Draws, rand_mod, sum, draw_sizes, n_files_size, cut}
use blockchain_crypto_messan.Share.Union.{joined}

pub sum-append : (ns ms : List ℕ) → sum (ns ++ ms) ≡ sum ns + sum ms
sum-append [] ms = omega arith
sum-append (n ∷ ns) ms = omega (arith, sum-append ns ms)

pub rand_mod-lt :
    (m : ℕ) (draws rest : Draws) (r : ℕ) → rand_mod m draws ≡ (returned r, rest) → r < m
unfolding rand_mod
rand_mod-lt m [] rest r h = cc
rand_mod-lt m (x ∷ draws) rest r h = elim (Bool-cases (m == 0)) [
  | inl none_left ↦ ground arith
  | inr some_left ↦ ground arith
]

draw_sizes_bound :
    (count max_size : ℕ) (draws rest : Draws) (sizes : List ℕ)
    → draw_sizes count max_size draws ≡ (returned sizes, rest)
    → (sum sizes ≤ count * max_size) × (length sizes ≡ count)
unfolding draw_sizes
draw_sizes_bound zero max_size draws rest sizes h =
    let same : [] ≡ sizes = pure-inv [] draws h in
    subst (λ ss. (sum ss ≤ zero * max_size) × (length ss ≡ zero)) same (omega arith, refl)
draw_sizes_bound (suc count) max_size draws rest sizes h =
    let (r, d₁, e₁, h₁) = >>=-inv (rand_mod max_size) _ draws h in
    let (more, d₂, e₂, h₂) = >>=-inv (draw_sizes count max_size) _ d₁ h₁ in
    let same : (r + 1) ∷ more ≡ sizes = pure-inv _ d₂ h₂ in
    let ih : (sum more ≤ count * max_size) × (length more ≡ count) =
      draw_sizes_bound count max_size d₁ d₂ more e₂ in
    subst (λ ss. (sum ss ≤ suc count * max_size) × (length ss ≡ suc count)) same
      (grind (arith, ih, rand_mod-lt max_size draws d₁ r e₁), omega (arith, ih))

parts_fit : (m n : ℕ) → 0 < n → (n - 1) * (m / n) ≤ m
parts_fit m n h = grind arith

-- The sizes add up to the size of the file: no part is cut behind its end.
pub sum-n_files_size :
    (file_size n_files : ℕ) (draws rest : Draws) (sizes : List ℕ)
    → 0 < n_files
    → n_files_size file_size n_files draws ≡ (returned sizes, rest)
    → (sum sizes ≡ file_size) × (length sizes ≡ n_files)
unfolding n_files_size
sum-n_files_size file_size n_files draws rest sizes pos_files h =
    let (first, d₁, e₁, h₁) = >>=-inv (draw_sizes (n_files - 1) (file_size / n_files)) _ draws h in
    let same : first ++ (file_size - sum first) ∷ [] ≡ sizes = pure-inv _ d₁ h₁ in
    let bound : (sum first ≤ (n_files - 1) * (file_size / n_files)) × (length first ≡ n_files - 1) =
      draw_sizes_bound (n_files - 1) (file_size / n_files) draws d₁ first e₁ in
    let room : (n_files - 1) * (file_size / n_files) ≤ file_size =
      parts_fit file_size n_files pos_files in
    subst (λ ss. (sum ss ≡ file_size) × (length ss ≡ n_files)) same
      (
        omega (arith, sum-append first ((file_size - sum first) ∷ [])),
        omega (arith, length-append first ((file_size - sum first) ∷ [])),
      )

pub joined-cut :
    (sizes : List ℕ) (buf : Bytes) → sum sizes ≡ length buf → joined (cut sizes buf) ≡ buf
unfolding cut
joined-cut [] [] h = refl
joined-cut [] (c ∷ buf) h = absurd (omega arith)
joined-cut (size ∷ sizes) buf h =
    ap (λ t. take size buf ++ t)
      (joined-cut sizes (drop size buf) (omega (arith, length-drop size buf (omega arith))))
    ∙ take-drop size buf

pub length-cut : (sizes : List ℕ) (buf : Bytes) → length (cut sizes buf) ≡ length sizes
unfolding cut
length-cut [] buf = refl
length-cut (size ∷ sizes) buf = ap suc (length-cut sizes (drop size buf))
