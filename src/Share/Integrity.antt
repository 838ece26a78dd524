-- ===== src/Share/Integrity.antt =====
-- What a run of `union_file` (bcm-linux-console/Cpp_part.cpp) can give back, and when it and
-- `share_file` fail.
use blockchain_crypto_messan.Common.{
  ℕ, ◌+◌, ◌≡◌, ◌≢◌, refl, sym, ap, ◌∙◌, false, Bool-cases, inl, inr, Option, none, some, List, [],
  ◌∷◌, ◌++◌, arith, length, ◌==◌, text_eq, text_eq→eq, text_eq_refl,
}
use blockchain_crypto_messan.Common.Int.{ℤ}
use blockchain_crypto_messan.Text.{Bytes}
use blockchain_crypto_messan.Program.{returned}
use blockchain_crypto_messan.Share.{Draws, Parts, share_file, Entry, ReferenceFile}
use blockchain_crypto_messan.Share.Union.{
  refused, Servers, first_answer, fetch_parts, check_parts, union_file, assembled, checked,
  decrypted_if, and_then,
}
use blockchain_crypto_messan.Share.Copies.{Reachable}
use blockchain_crypto_messan.Share.Placed.{Honest}
use blockchain_crypto_messan.Share.RoundTrip.{union_file-share_file_before}

module _ (count_hash : Bytes → Bytes) (decrypt : Bytes → Bytes → Bytes → Bytes) where
  -- A file that `share_file` has spread, encrypted, comes back whole from `union_file` if nothing
  -- is left under its name, decryption undoes its encryption, each server that answers sends what
  -- it was sent under the number that it gave, and for each part that was sent at least one of its
  -- three servers answers.
  pub union_file-share_file :
      (encrypt : Bytes → Bytes → Bytes → Bytes) (send_file_to_server : ℕ → Bytes → Bytes → ℤ)
      (recieve_from_server : Servers) (servers_address : List Bytes) (key iv file : Bytes)
      (draws rest : Draws) (rf : ReferenceFile)
      → decrypt key iv (encrypt key iv file) ≡ file
      → Honest count_hash send_file_to_server recieve_from_server
      → share_file count_hash send_file_to_server servers_address key iv (encrypt key iv file) draws
        ≡ (returned (some rf), rest)
      → Reachable count_hash recieve_from_server rf.part_here_file 0 rf.entries
      → union_file count_hash decrypt recieve_from_server rf [] ≡ returned (some file)
  union_file-share_file encrypt send_file_to_server recieve_from_server servers_address key iv file
        draws rest rf inverse honest h answers =
      union_file-share_file_before count_hash send_file_to_server recieve_from_server decrypt honest
        servers_address key iv (encrypt key iv file) [] draws rest rf h answers
      ∙ rw (text_eq_refl (count_hash (encrypt key iv file))) (ap (λ t. returned (some t)) inverse)

  -- If what is under the name of the file before the run changes the hash of the whole, `union_file`
  -- gives nothing back for a file that `share_file` has spread, though each server that answers is
  -- honest and each part can be reached.
  pub union_file-leftover :
      (send_file_to_server : ℕ → Bytes → Bytes → ℤ) (recieve_from_server : Servers)
      (servers_address : List Bytes) (key iv buf before : Bytes) (draws rest : Draws)
      (rf : ReferenceFile)
      → count_hash (before ++ buf) ≢ count_hash buf
      → Honest count_hash send_file_to_server recieve_from_server
      → share_file count_hash send_file_to_server servers_address key iv buf draws
        ≡ (returned (some rf), rest)
      → Reachable count_hash recieve_from_server rf.part_here_file 0 rf.entries
      → union_file count_hash decrypt recieve_from_server rf before ≡ returned none
  union_file-leftover send_file_to_server recieve_from_server servers_address key iv buf before
        draws rest rf differs honest h answers =
      union_file-share_file_before count_hash send_file_to_server recieve_from_server decrypt honest
        servers_address key iv buf before draws rest rf h answers
      ∙ elim (Bool-cases (text_eq (count_hash buf) (count_hash (before ++ buf)))) [
        | inl same ↦ absurd (differs (sym (text_eq→eq _ _ same)))
        | inr other ↦ rw other refl
      ]

  -- A decryption of a file with this hash.
  abbrev pub IsDecrypted : ReferenceFile → Bytes → Type 0
  IsDecrypted rf p =
      (file : Bytes) × (rf.hash_of_all_file ≡ count_hash file)
      × (p ≡ decrypt rf.buf_key rf.buf_iv file)

  decrypted_if-IsDecrypted :
      (recieve_from_server : Servers) (rf : ReferenceFile) (file p : Bytes)
      → decrypted_if count_hash decrypt recieve_from_server rf file ≡ returned (some p)
      → IsDecrypted rf p
  decrypted_if-IsDecrypted recieve_from_server rf file p h =
      elim (Bool-cases (text_eq rf.hash_of_all_file (count_hash file))) [
        | inl same ↦
            let value : decrypt rf.buf_key rf.buf_iv file ≡ p = ground arith in
            (file, text_eq→eq _ _ same, sym value)
        | inr other ↦ ground arith
      ]

  assembled-IsDecrypted :
      (recieve_from_server : Servers) (rf : ReferenceFile) (before p : Bytes)
      (parts : Option (List Bytes))
      → assembled count_hash decrypt recieve_from_server rf before parts ≡ returned (some p)
      → IsDecrypted rf p
  assembled-IsDecrypted recieve_from_server rf before p none h = cc
  assembled-IsDecrypted recieve_from_server rf before p (some parts) h =
      decrypted_if-IsDecrypted recieve_from_server rf _ p h

  checked-IsDecrypted :
      (recieve_from_server : Servers) (rf : ReferenceFile) (before p : Bytes)
      (fetched : Option Parts)
      → checked count_hash decrypt recieve_from_server rf before fetched ≡ returned (some p)
      → IsDecrypted rf p
  checked-IsDecrypted recieve_from_server rf before p none h = cc
  checked-IsDecrypted recieve_from_server rf before p (some files) h =
      elim (Bool-cases (check_parts count_hash rf.part_here_file 0 rf.entries files)) [
        | inl right ↦ assembled-IsDecrypted recieve_from_server rf before p _ (rw right at h)
        | inr wrong ↦ ground arith
      ]

  -- Whatever the servers send and whatever is under the name of the file, what `union_file` gives
  -- back is the decryption, under the key of the reference file, of a file whose hash is the one in
  -- the reference file.
  pub union_file-IsDecrypted :
      (recieve_from_server : Servers) (rf : ReferenceFile) (before p : Bytes)
      → union_file count_hash decrypt recieve_from_server rf before ≡ returned (some p)
      → IsDecrypted rf p
  unfolding union_file
  union_file-IsDecrypted recieve_from_server rf before p h =
      checked-IsDecrypted recieve_from_server rf before p _ h

  and_then-none :
      (next : Parts → Option Parts) (files : Option Parts)
      → ((got : Parts) → next got ≡ none)
      → and_then next files ≡ none
  and_then-none next none h = refl
  and_then-none next (some files) h = h files

  fetch_parts-refused :
      (recieve_from_server : Servers) (part_here i : ℕ) (first : List Entry) (e : Entry)
      (last : List Entry) (files : Parts)
      → i + length first ≢ part_here
      → first_answer recieve_from_server e ≡ refused
      → fetch_parts recieve_from_server part_here i (first ++ e ∷ last) files ≡ none
  unfolding fetch_parts
  fetch_parts-refused recieve_from_server part_here i [] e last files ne lost =
      let goes : (i == part_here) ≡ false = ground arith in rw (goes, lost) refl
  fetch_parts-refused recieve_from_server part_here i (d ∷ first) e last files ne lost =
      and_then-none _ _ (λ got.
        fetch_parts-refused recieve_from_server part_here (i + 1) first e last got
          (λ same. ne (omega arith)) lost)

  -- If none of the three servers of one part that was sent answers, `union_file` gives nothing
  -- back.
  pub union_file-refused :
      (recieve_from_server : Servers) (rf : ReferenceFile) (before : Bytes) (first : List Entry)
      (e : Entry) (last : List Entry)
      → rf.entries ≡ first ++ e ∷ last
      → length first ≢ rf.part_here_file
      → first_answer recieve_from_server e ≡ refused
      → union_file count_hash decrypt recieve_from_server rf before ≡ returned none
  unfolding union_file
  union_file-refused recieve_from_server rf before first e last is ne lost =
      ap (checked count_hash decrypt recieve_from_server rf before) (
        ap (λ es. fetch_parts recieve_from_server rf.part_here_file 0 es (λ name. none)) is
        ∙ fetch_parts-refused recieve_from_server rf.part_here_file 0 first e last (λ name. none)
            (λ same. ne (omega arith)) lost)
