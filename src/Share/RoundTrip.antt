-- ===== src/Share/RoundTrip.antt =====
-- `union_file` after `share_file` (bcm-linux-console/Cpp_part.cpp).
use blockchain_crypto_messan.Common.{
  ℕ, ◌+◌, ◌*◌, ◌/◌, ◌%◌, ◌<◌, ◌≡◌, sym, ap, subst, ◌∙◌, true, Option, none, some, List, ◌++◌, arith,
  length, take, take-append, if◌then◌else◌, text_eq, All,
}
use blockchain_crypto_messan.Common.Int.{ℤ}
use blockchain_crypto_messan.Text.{Bytes}
use blockchain_crypto_messan.Program.{Outcome, returned, >>=-inv, pure-inv}
use blockchain_crypto_messan.Share.{
  Draws, Parts, rand_mod, renamed, draw_names, numbers, choose_part_here, place_all, kept,
  share_parts, share_file, with_part, n_files_size, cut, k_files_size, draw_fakes, sum, Entry,
  ReferenceFile, content_of,
}
use blockchain_crypto_messan.Share.Cut.{sum-n_files_size, joined-cut, length-cut}
use blockchain_crypto_messan.Share.Names.{
  Distinct, draw_names-All, draw_names-Distinct, numbers-Distinct, numbers_bounds,
  renamed_back-renamed,
}
use blockchain_crypto_messan.Share.Union.{
  Servers, union_file, check_parts, renamed_back, joined, checked, assembled,
}
use blockchain_crypto_messan.Share.Copies.{
  Placed, Reachable, filled, filled-at, filled-Agree, renamed-filled, fetch_parts-filled,
  check_parts-true,
}
use blockchain_crypto_messan.Share.Placed.{Honest, place_all-Placed}

module _ (count_hash : Bytes → Bytes) (send_file_to_server : ℕ → Bytes → Bytes → ℤ)
    (recieve_from_server : Servers) (decrypt : Bytes → Bytes → Bytes → Bytes) where
  -- What comes back from the reference file, with `before` in front of the parts.
  abbrev pub result : Bytes → Bytes → Bytes → Bytes → Outcome (Option Bytes)
  result key iv buf file =
      returned
        (if text_eq (count_hash buf) (count_hash file) then some (decrypt key iv file) else none)

  abbrev reference : Bytes → Bytes → Bytes → ℕ → List ℕ → Parts → ℕ → List Entry → ReferenceFile
  reference key iv buf n_files names files part_here entries = record {
    real_files = n_files;
    part_here_file = part_here;
    hash_of_all_file = count_hash buf;
    buf_key = key;
    buf_iv = iv;
    entries = entries;
    part_here_data = content_of (files part_here);
    switch_table_second = names;
  }

  union_file-reference :
      (key iv buf before : Bytes) (n_files : ℕ) (names : List ℕ) (parts : List Bytes)
      (part_here : ℕ) (entries : List Entry)
      → Distinct names × (length names ≡ length parts)
      → All (λ name. name < length entries) names
      → Placed count_hash recieve_from_server part_here 0
          (renamed names parts (λ name. none))
          entries
      → Reachable count_hash recieve_from_server part_here 0 entries
      → union_file count_hash decrypt recieve_from_server
          (reference key iv buf n_files names
            (renamed names parts (λ name. none))
            part_here
            entries)
          before
        ≡ result key iv buf (before ++ joined (take n_files parts))
  unfolding union_file
  union_file-reference key iv buf before n_files names parts part_here entries apart small placed
        answers =
      let sent : Parts = renamed names parts (λ name. none) in
      let files : Parts = filled part_here 0 (length entries) sent (λ name. none) in
      let right : check_parts count_hash part_here 0 entries files ≡ true =
        check_parts-true count_hash recieve_from_server part_here 0 sent files entries placed
          (λ j le lt ne. filled-at part_here 0 (length entries) sent (λ name. none) j le lt ne) in
      let back : renamed_back names (with_part part_here (content_of (sent part_here)) files)
          ≡ some parts =
        renamed_back-renamed names parts (λ name. none) _ apart.0 apart.1
          (filled-Agree part_here (length entries) sent names small
            (renamed-filled names parts (λ name. none) apart.0 apart.1)) in
      ap
        (checked count_hash decrypt recieve_from_server
          (reference key iv buf n_files names sent part_here entries) before)
        (fetch_parts-filled count_hash recieve_from_server part_here 0 sent (λ name. none) entries
          placed answers)
      ∙ rw right (
          ap
            (assembled count_hash decrypt recieve_from_server
              (reference key iv buf n_files names sent part_here entries) before)
            back)

  some_inv : {A : Type 0} {a b : A} → some a ≡ some b → a ≡ b
  some_inv h = cc

  kept-back :
      Honest count_hash send_file_to_server recieve_from_server
      → (servers_address : List Bytes) (key iv buf before : Bytes) (n_files : ℕ) (names : List ℕ)
        (parts : List Bytes) (chosen : Option ℕ) (draws rest : Draws) (rf : ReferenceFile)
      → Distinct names × (length names ≡ length parts)
      → All (λ name. name < length parts) names
      → kept count_hash send_file_to_server servers_address key iv buf n_files names
          (renamed names parts (λ name. none))
          chosen
          draws
        ≡ (returned (some rf), rest)
      → Reachable count_hash recieve_from_server rf.part_here_file 0 rf.entries
      → union_file count_hash decrypt recieve_from_server rf before
        ≡ result key iv buf (before ++ joined (take n_files parts))
  kept-back honest servers_address key iv buf before n_files names parts none draws rest rf apart
        small h answers =
      cc
  kept-back honest servers_address key iv buf before n_files names parts (some part_here) draws rest
        rf apart small h answers =
      let files : Parts = renamed names parts (λ name. none) in
      let (entries, d₁, e₁, h₁) =
        >>=-inv
          (place_all count_hash send_file_to_server servers_address part_here files (length names)
            0)
          _ draws h in
      let placed : Placed count_hash recieve_from_server part_here 0 files entries
          × (length entries ≡ length names) =
        place_all-Placed count_hash send_file_to_server recieve_from_server honest servers_address
          part_here files (length names) 0 draws d₁ entries e₁ in
      let same : reference key iv buf n_files names files part_here entries ≡ rf =
        some_inv (pure-inv _ d₁ h₁) in
      subst
        (λ r.
          Reachable count_hash recieve_from_server r.part_here_file 0 r.entries
          → union_file count_hash decrypt recieve_from_server r before
            ≡ result key iv buf (before ++ joined (take n_files parts)))
        same
        (λ reached.
          union_file-reference key iv buf before n_files names parts part_here entries apart
            (subst (λ k. All (λ name. name < k) names) (sym (placed.1 ∙ apart.1)) small) placed.0
            reached)
        answers

  share_parts-back :
      Honest count_hash send_file_to_server recieve_from_server
      → (servers_address : List Bytes) (key iv buf before : Bytes) (n_files : ℕ)
        (parts : List Bytes) (draws rest : Draws) (rf : ReferenceFile)
      → share_parts count_hash send_file_to_server servers_address key iv buf n_files parts draws
        ≡ (returned (some rf), rest)
      → Reachable count_hash recieve_from_server rf.part_here_file 0 rf.entries
      → union_file count_hash decrypt recieve_from_server rf before
        ≡ result key iv buf (before ++ joined (take n_files parts))
  unfolding share_parts
  share_parts-back honest servers_address key iv buf before n_files parts draws rest rf h answers =
      let (names, d₁, e₁, h₁) =
        >>=-inv (draw_names (length parts) (numbers 0 (length parts))) _ draws h in
      let (chosen, d₂, e₂, h₂) =
        >>=-inv
          (choose_part_here 1000 n_files (length parts) names (renamed names parts (λ name. none)))
          _ d₁ h₁ in
      kept-back honest servers_address key iv buf before n_files names parts chosen d₂ rest rf
        (draw_names-Distinct (length parts) (numbers 0 (length parts)) draws d₁ names e₁
          (numbers-Distinct 0 (length parts)))
        (draw_names-All (λ name. name < length parts) (length parts) (numbers 0 (length parts))
          draws d₁ names e₁ (numbers_bounds (length parts) 0 (length parts) (omega arith)))
        h₂ answers

  -- What `union_file` makes of the reference file of `share_file`, with `before` already under the
  -- name of the file.
  pub union_file-share_file_before :
      Honest count_hash send_file_to_server recieve_from_server
      → (servers_address : List Bytes) (key iv buf before : Bytes) (draws rest : Draws)
        (rf : ReferenceFile)
      → share_file count_hash send_file_to_server servers_address key iv buf draws
        ≡ (returned (some rf), rest)
      → Reachable count_hash recieve_from_server rf.part_here_file 0 rf.entries
      → union_file count_hash decrypt recieve_from_server rf before
        ≡ result key iv buf (before ++ buf)
  unfolding share_file
  union_file-share_file_before honest servers_address key iv buf before draws rest rf h answers =
      let (r, d₁, _, h₁) = >>=-inv (rand_mod (length buf)) _ draws h in
      let n_files : ℕ = (r + 1) % 50 + 1 in
      let (sizes, d₂, e₂, h₂) = >>=-inv (n_files_size (length buf) n_files) _ d₁ h₁ in
      let (k, d₃, _, h₃) = >>=-inv (rand_mod (n_files * 3 / 4)) _ d₂ h₂ in
      let (fake_sizes, d₄, _, h₄) = >>=-inv (k_files_size (k + 1) (length buf / n_files)) _ d₃ h₃ in
      let (fakes, d₅, _, h₅) = >>=-inv (draw_fakes fake_sizes) _ d₄ h₄ in
      let total : (sum sizes ≡ length buf) × (length sizes ≡ n_files) =
        sum-n_files_size (length buf) n_files d₁ d₂ sizes (omega arith) e₂ in
      let whole : joined (take n_files (cut sizes buf ++ fakes)) ≡ buf =
        ap (λ n. joined (take n (cut sizes buf ++ fakes))) (sym (length-cut sizes buf ∙ total.1))
        ∙ ap joined (take-append (cut sizes buf) fakes)
        ∙ joined-cut sizes buf total.0 in
      share_parts-back honest servers_address key iv buf before n_files (cut sizes buf ++ fakes) d₅
        rest rf h₅ answers
      ∙ ap (λ t. result key iv buf (before ++ t)) whole
