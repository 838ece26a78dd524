-- ===== src/Share/Union.antt =====
-- How a spread file comes back: `union_file` (bcm-linux-console/Cpp_part.cpp) fetches each part from
-- the first of its three servers that answers, compares the hashes, puts its own part in place, undoes
-- the renaming, joins the real parts and compares the hash of the whole.
use blockchain_crypto_messan.Common.{
  ℕ, ◌+◌, Bool, true, false, ◌&&◌, Option, none, some, List, [], ◌∷◌, ◌++◌, take, ◌==◌,
  if◌then◌else◌, text_eq,
}
use blockchain_crypto_messan.Common.Int.{ℤ}
use blockchain_crypto_messan.Text.{Bytes}
use blockchain_crypto_messan.Program.{Outcome, returned, exited}
use blockchain_crypto_messan.Share.{Parts, with_part, Entry, ReferenceFile}

-- What `recieve_from_server` does: it returns 1, or it returns 0, with a file or, after an exception,
-- without one.
pub data Fetched : Type 0 where
  refused nothing : Fetched
  arrived : Bytes → Fetched

abbrev pub Servers : Type 0
Servers = Bytes → ℤ → Fetched

abbrev pub or_else : Fetched → Fetched → Fetched
or_else refused next = next
or_else nothing next = nothing
or_else (arrived content) next = arrived content

-- The first answer of the three servers.
unfoldable pub first_answer : Servers → Entry → Fetched
first_answer recieve_from_server e = or_else (recieve_from_server e.addr_1 e.filename_1) (
    or_else (recieve_from_server e.addr_2 e.filename_2) (recieve_from_server e.addr_3 e.filename_3))

-- `none` where no server answers; the result of `rename` is not looked at.
abbrev pub stored_part : ℕ → Fetched → Parts → Option Parts
stored_part i refused files = none
stored_part i nothing files = some files
stored_part i (arrived content) files = some (with_part i content files)

abbrev pub and_then : (Parts → Option Parts) → Option Parts → Option Parts
and_then next none = none
and_then next (some files) = next files

unfoldable pub fetch_parts : Servers → ℕ → ℕ → List Entry → Parts → Option Parts
unfolding first_answer
fetch_parts recieve_from_server part_here i [] files = some files
fetch_parts recieve_from_server part_here i (e ∷ entries) files =
    and_then (fetch_parts recieve_from_server part_here (i + 1) entries) (
      if i == part_here
      then some files
      else stored_part i (first_answer recieve_from_server e) files)

-- A missing file, which makes CryptoPP throw, and another hash both end the process.
abbrev pub same_hash : (Bytes → Bytes) → Bytes → Option Bytes → Bool
same_hash count_hash h none = false
same_hash count_hash h (some content) = text_eq h (count_hash content)

unfoldable pub check_parts : (Bytes → Bytes) → ℕ → ℕ → List Entry → Parts → Bool
check_parts count_hash part_here i [] files = true
check_parts count_hash part_here i (e ∷ entries) files =
    (if i == part_here then true else same_hash count_hash e.hash_file (files i))
    && check_parts count_hash part_here (i + 1) entries files

abbrev pub without_part : ℕ → Parts → Parts
without_part name files other = if other == name then none else files other

abbrev pub in_front : Option Bytes → Option (List Bytes) → Option (List Bytes)
in_front none parts = none
in_front (some part) none = none
in_front (some part) (some parts) = some (part ∷ parts)

-- Each part under its old number, the renamed file is gone; `none` where a file is missing.
unfoldable pub renamed_back : List ℕ → Parts → Option (List Bytes)
renamed_back [] files = some []
renamed_back (name ∷ names) files =
    in_front (files name) (renamed_back names (without_part name files))

abbrev pub joined : List Bytes → Bytes
joined [] = []
joined (part ∷ parts) = part ++ joined parts

module _ (count_hash : Bytes → Bytes) (decrypt : Bytes → Bytes → Bytes → Bytes)
    (recieve_from_server : Servers) where
  -- The encrypted file is appended to what is there under its name; `none` is the return value 1.
  abbrev pub decrypted_if : ReferenceFile → Bytes → Outcome (Option Bytes)
  decrypted_if rf file = returned (
      if text_eq rf.hash_of_all_file (count_hash file)
      then some (decrypt rf.buf_key rf.buf_iv file)
      else none)

  abbrev pub assembled : ReferenceFile → Bytes → Option (List Bytes) → Outcome (Option Bytes)
  assembled rf before none = exited
  assembled rf before (some parts) = decrypted_if rf (before ++ joined (take rf.real_files parts))

  abbrev pub checked : ReferenceFile → Bytes → Option Parts → Outcome (Option Bytes)
  checked rf before none = returned none
  checked rf before (some files) =
      if check_parts count_hash rf.part_here_file 0 rf.entries files
      then assembled rf before (
          renamed_back rf.switch_table_second (with_part rf.part_here_file rf.part_here_data files))
      else exited

  -- `before` is what an earlier run has left under the name of the file.
  unfoldable pub union_file : ReferenceFile → Bytes → Outcome (Option Bytes)
  unfolding fetch_parts check_parts renamed_back
  union_file rf before =
      checked rf before
        (fetch_parts recieve_from_server rf.part_here_file 0 rf.entries (λ name. none))
