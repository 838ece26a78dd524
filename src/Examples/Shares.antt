-- ===== src/Examples/Shares.antt =====
-- The theorems on the sharing of files of bcm-linux-console at concrete inputs.
use blockchain_crypto_messan.Common.{
  ℕ, zero, suc, ◌≡◌, ◌≢◌, ◌⊎◌, refl, sym, ap, inl, inr, Bool-cases, none, some, List, [], ◌∷◌, drop,
  if◌then◌else◌, text_eq, text_eq→eq,
}
use blockchain_crypto_messan.Common.Int.{ℤ, pos, negsuc}
use blockchain_crypto_messan.Text.{Bytes}
use blockchain_crypto_messan.Program.{returned, ◌>>=◌}
use blockchain_crypto_messan.Share.{
  Draws, Entry, ReferenceFile, blank, share_file, rand_mod, rand_until, draw_sizes, n_files_size,
  cut, draw_bytes, k_files_size, draw_fakes, numbers, without, draw_names, renamed, can_stay,
  choose_part_here, place, place_all, share_parts,
}
use blockchain_crypto_messan.Share.Union.{
  Fetched, refused, arrived, Servers, first_answer, union_file,
}
use blockchain_crypto_messan.Share.Copies.{Reachable}
use blockchain_crypto_messan.Share.Placed.{Honest}
use blockchain_crypto_messan.Share.Integrity.{
  union_file-share_file, union_file-leftover, union_file-IsDecrypted, IsDecrypted,
}
use blockchain_crypto_messan.Examples.{alice, bob, carol}

-- A cipher that puts a byte in front, and a hash that is the text itself.
abbrev lock : Bytes → Bytes → Bytes → Bytes
lock key iv file = 7 ∷ file

abbrev unlock : Bytes → Bytes → Bytes → Bytes
unlock key iv file = drop 1 file

abbrev itself : Bytes → Bytes
itself s = s

-- The number under which the servers keep a part of this file; Alice's never answers.
abbrev kept_as : ℕ → Bytes → Bytes → ℤ
kept_as i addr content =
    if text_eq content (7 ∷ [])
    then pos 0
    else if text_eq content (1 ∷ [])
    then pos 1
    else if text_eq content (2 ∷ 3 ∷ [])
    then pos 2
    else if text_eq content (10 ∷ [])
    then pos 3
    else negsuc 0

abbrev part_at : ℕ → Fetched
part_at zero = arrived (7 ∷ [])
part_at (suc zero) = arrived (1 ∷ [])
part_at (suc (suc zero)) = arrived (2 ∷ 3 ∷ [])
part_at (suc (suc (suc zero))) = arrived (10 ∷ [])
part_at (suc (suc (suc (suc n)))) = refused

abbrev numbered_part : ℤ → Fetched
numbered_part (pos n) = part_at n
numbered_part (negsuc n) = refused

abbrev three_servers : Servers
three_servers addr name = if text_eq addr alice then refused else numbered_part name

abbrev ordered_draws : Draws
ordered_draws =
    1 ∷ 5 ∷ 6 ∷ 0 ∷ 7 ∷ 9 ∷ 2 ∷ 1 ∷ 1 ∷ 0 ∷ 2 ∷ 0 ∷ 0 ∷ 1 ∷ 2 ∷ 1 ∷ 2 ∷ 0 ∷ 0 ∷ 1 ∷ 2 ∷ []

abbrev server_list : List Bytes
server_list = alice ∷ bob ∷ carol ∷ [] ∷ []

abbrev copy : Bytes → Bytes → Bytes → Bytes → ℤ → Entry
copy content addr_1 addr_2 addr_3 name = record {
  hash_file = content;
  addr_1 = addr_1;
  addr_2 = addr_2;
  addr_3 = addr_3;
  filename_1 = name;
  filename_2 = name;
  filename_3 = name;
}

-- Three real parts and a fake one; the part with the name 2, which is the first, stays.
abbrev reference_file : ReferenceFile
reference_file = record {
  real_files = 3;
  part_here_file = 2;
  hash_of_all_file = 7 ∷ 1 ∷ 2 ∷ 3 ∷ [];
  buf_key = [];
  buf_iv = [];
  entries =
      copy (10 ∷ []) alice bob carol (pos 3)
      ∷ copy (1 ∷ []) bob carol alice (pos 1)
      ∷ blank
      ∷ copy (2 ∷ 3 ∷ []) alice bob carol (pos 2)
      ∷ [];
  part_here_data = 7 ∷ [];
  switch_table_second = 2 ∷ 1 ∷ 3 ∷ 0 ∷ [];
}

shared :
    share_file itself kept_as server_list [] [] (7 ∷ 1 ∷ 2 ∷ 3 ∷ []) ordered_draws
    ≡ (returned (some reference_file), [])
unfolding share_file rand_mod rand_until draw_sizes n_files_size cut draw_bytes k_files_size
    draw_fakes numbers without draw_names renamed can_stay choose_part_here place place_all
    share_parts text_eq ◌>>=◌
shared = refl

kept_part :
    (content : Bytes)
    → (numbered_part (kept_as 0 [] content) ≡ arrived content)
      ⊎ (numbered_part (kept_as 0 [] content) ≡ refused)
kept_part content = elim (Bool-cases (text_eq content (7 ∷ []))) [
  | inl a ↦ inl (rw a (ap arrived (sym (text_eq→eq _ _ a))))
  | inr a ↦ elim (Bool-cases (text_eq content (1 ∷ []))) [
    | inl b ↦ inl (rw (a, b) (ap arrived (sym (text_eq→eq _ _ b))))
    | inr b ↦ elim (Bool-cases (text_eq content (2 ∷ 3 ∷ []))) [
      | inl c ↦ inl (rw (a, b, c) (ap arrived (sym (text_eq→eq _ _ c))))
      | inr c ↦ elim (Bool-cases (text_eq content (10 ∷ []))) [
        | inl d ↦ inl (rw (a, b, c, d) (ap arrived (sym (text_eq→eq _ _ d))))
        | inr d ↦ inr (rw (a, b, c, d) refl)
      ]
    ]
  ]
]

three_servers-Honest : Honest itself kept_as three_servers
three_servers-Honest i addr content = elim (Bool-cases (text_eq addr alice)) [
  | inl silent ↦ inr (rw silent refl)
  | inr speaks ↦ rw speaks (kept_part content)
]

reached : Reachable itself three_servers 2 0 reference_file.entries
unfolding first_answer text_eq
reached =
    ((λ ne. λ lost. cc), ((λ ne. λ lost. cc), ((λ ne. absurd (ne refl)), ((λ ne. λ lost. cc), tt))))

union_file-share_file_example :
    union_file itself unlock three_servers reference_file [] ≡ returned (some (1 ∷ 2 ∷ 3 ∷ []))
union_file-share_file_example =
    union_file-share_file itself unlock lock kept_as three_servers server_list [] []
      (1 ∷ 2 ∷ 3 ∷ []) ordered_draws [] reference_file refl three_servers-Honest shared reached

half_differs : itself (7 ∷ 1 ∷ 7 ∷ 1 ∷ 2 ∷ 3 ∷ []) ≢ itself (7 ∷ 1 ∷ 2 ∷ 3 ∷ [])
half_differs h = cc

-- Half of the file is left of an earlier run.
union_file-leftover_example :
    union_file itself unlock three_servers reference_file (7 ∷ 1 ∷ []) ≡ returned none
union_file-leftover_example =
    union_file-leftover itself unlock kept_as three_servers server_list [] [] (7 ∷ 1 ∷ 2 ∷ 3 ∷ [])
      (7 ∷ 1 ∷ []) ordered_draws [] reference_file half_differs three_servers-Honest shared reached

came_back :
    union_file itself unlock three_servers reference_file [] ≡ returned (some (1 ∷ 2 ∷ 3 ∷ []))
came_back =
    union_file-share_file itself unlock lock kept_as three_servers server_list [] []
      (1 ∷ 2 ∷ 3 ∷ []) ordered_draws [] reference_file refl three_servers-Honest shared reached

union_file-IsDecrypted_example : IsDecrypted itself unlock reference_file (1 ∷ 2 ∷ 3 ∷ [])
union_file-IsDecrypted_example =
    union_file-IsDecrypted itself unlock three_servers reference_file [] (1 ∷ 2 ∷ 3 ∷ []) came_back

abbrev no_servers : Servers
no_servers addr name = refused
