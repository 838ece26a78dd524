-- ===== src/Share.antt =====
-- How a file is spread over servers: `share_file` (bcm-linux-console/Cpp_part.cpp) cuts the encrypted
-- file into parts, adds fake parts, gives the parts the names of a random permutation, keeps one part
-- in the reference file, and sends each other part to three servers. What `rand` returns is a list of
-- draws; a run that needs more draws than there are goes on drawing.
pub mod Union
pub mod Cut
pub mod Names
pub mod Copies
pub mod Placed
pub mod RoundTrip
pub mod Integrity
use blockchain_crypto_messan.Common.{
  ℕ, zero, suc, ◌+◌, ◌-◌, ◌*◌, ◌/◌, ◌%◌, Bool, true, false, not, ◌&&◌, ◌||◌, Option, none, some,
  List, [], ◌∷◌, ◌++◌, length, take, drop, get_or, ltb, leb, ◌==◌, if◌then◌else◌,
}
use blockchain_crypto_messan.Common.Int.{ℤ, pos}
use blockchain_crypto_messan.Text.{Bytes}
use blockchain_crypto_messan.Program.{
  returned, fault, blocked, Exec, pure, exit, undefined, ◌>>=◌, ◌>>◌,
}

abbrev pub Draws : Type 0
Draws = List ℕ

-- `rand() % m`
unfoldable pub rand_mod : ℕ → Exec Draws ℕ
rand_mod m [] = (blocked, [])
rand_mod m (x ∷ draws) = if m == 0 then (fault, draws) else (returned (x % m), draws)

-- `do x = rand() % m; while (!ok(x))`
unfoldable pub rand_until : (ℕ → Bool) → ℕ → Exec Draws ℕ
rand_until ok m [] = (blocked, [])
rand_until ok m (x ∷ draws) =
    let again = rand_until ok m draws in
    if m == 0 then (fault, draws) else if ok (x % m) then (returned (x % m), draws) else again

abbrev pub sum : List ℕ → ℕ
sum [] = 0
sum (n ∷ ns) = n + sum ns

-- The sizes of all real parts but the last.
unfoldable pub draw_sizes : ℕ → ℕ → Exec Draws (List ℕ)
unfolding rand_mod
draw_sizes zero max_size = pure []
draw_sizes (suc count) max_size = do
  r ← rand_mod max_size
  sizes ← draw_sizes count max_size
  pure ((r + 1) ∷ sizes)

-- N_files_size
unfoldable pub n_files_size : ℕ → ℕ → Exec Draws (List ℕ)
unfolding draw_sizes
n_files_size file_size n_files = do
  sizes ← draw_sizes (n_files - 1) (file_size / n_files)
  pure (sizes ++ (file_size - sum sizes) ∷ [])

unfoldable pub cut : List ℕ → Bytes → List Bytes
cut [] buf = []
cut (size ∷ sizes) buf = take size buf ∷ cut sizes (drop size buf)

unfoldable pub draw_bytes : ℕ → Exec Draws Bytes
unfolding rand_mod
draw_bytes zero = pure []
draw_bytes (suc count) = do r ← rand_mod 254; bytes ← draw_bytes count; pure ((1 + r) ∷ bytes)

-- K_files_size, whose entries are of type `unsigned char`.
unfoldable pub k_files_size : ℕ → ℕ → Exec Draws (List ℕ)
unfolding rand_mod
k_files_size zero max_size = pure []
k_files_size (suc count) max_size = do
  r ← rand_mod max_size
  sizes ← k_files_size count max_size
  pure ((r + 1) % 256 ∷ sizes)

unfoldable pub draw_fakes : List ℕ → Exec Draws (List Bytes)
unfolding draw_bytes
draw_fakes [] = pure []
draw_fakes (size ∷ sizes) = do
  bytes ← draw_bytes size
  fakes ← draw_fakes sizes
  pure (bytes ∷ fakes)

-- The set of names that are left, in their order.
unfoldable pub numbers : ℕ → ℕ → List ℕ
numbers from zero = []
numbers from (suc count) = from ∷ numbers (from + 1) count

unfoldable pub without : ℕ → List ℕ → List ℕ
without i [] = []
without zero (x ∷ st) = st
without (suc i) (x ∷ st) = x ∷ without i st

-- new_file_names_int
unfoldable pub draw_names : ℕ → List ℕ → Exec Draws (List ℕ)
unfolding rand_mod without
draw_names zero st = pure []
draw_names (suc count) st = do
  count_it ← rand_mod (length st)
  names ← draw_names count (without count_it st)
  pure (get_or st count_it 0 ∷ names)

-- The temporary files, by the number in their names.
abbrev pub Parts : Type 0
Parts = ℕ → Option Bytes

abbrev pub with_part : ℕ → Bytes → Parts → Parts
with_part name content files other = if other == name then some content else files other

unfoldable pub renamed : List ℕ → List Bytes → Parts → Parts
renamed [] parts files = files
renamed (name ∷ names) [] files = files
renamed (name ∷ names) (part ∷ parts) files = renamed names parts (with_part name part files)

abbrev pub content_of : Option Bytes → Bytes
content_of none = []
content_of (some content) = content

-- Whether `part_here` is the name of a real part of at most 999 bytes.
unfoldable pub can_stay : ℕ → ℕ → ℕ → ℕ → List ℕ → Bool
can_stay part_here n_files size i [] = false
can_stay part_here n_files size i (name ∷ names) =
    (name == part_here && ltb i n_files && leb size 999)
    || can_stay part_here n_files size (i + 1) names

-- On the tries left; `none` if all 1000 of them fail.
unfoldable pub choose_part_here : ℕ → ℕ → ℕ → List ℕ → Parts → Exec Draws (Option ℕ)
unfolding rand_mod can_stay
choose_part_here zero n_files total names files = pure none
choose_part_here (suc tries) n_files total names files = do
  part_here ← rand_mod total
  let again = choose_part_here tries n_files total names files
  if can_stay part_here n_files (length (content_of (files part_here))) 0 names
      then pure (some part_here)
      else again

-- What the reference file says of one part: its hash, and each server with the name there.
pub record Entry : Type 0 where
  pub hash_file : Bytes
  pub addr_1 : Bytes
  pub addr_2 : Bytes
  pub addr_3 : Bytes
  pub filename_1 : ℤ
  pub filename_2 : ℤ
  pub filename_3 : ℤ

pub record ReferenceFile : Type 0 where
  pub real_files : ℕ
  pub part_here_file : ℕ
  pub hash_of_all_file : Bytes
  pub buf_key : Bytes
  pub buf_iv : Bytes
  pub entries : List Entry
  pub part_here_data : Bytes
  pub switch_table_second : List ℕ

-- Nothing is written for the part that stays.
abbrev pub blank : Entry
blank = record {
  hash_file = [];
  addr_1 = [];
  addr_2 = [];
  addr_3 = [];
  filename_1 = pos 0;
  filename_2 = pos 0;
  filename_3 = pos 0;
}

-- max_len_inet_addr: the end of a longer first address is taken from a variable that is not set, of
-- the others from one that is 0.
abbrev pub max_len_inet_addr : ℕ
max_len_inet_addr = 40

abbrev pub first_address : Bytes → Exec Draws Bytes
first_address address draws =
    if ltb (length address) max_len_inet_addr then (returned address, draws) else (fault, draws)

abbrev pub next_address : Bytes → Bytes
next_address address = if ltb (length address) max_len_inet_addr then address else []

-- `count_hash`, which is CryptoPP's SHA-256, and the number under which a server keeps the copy of
-- a part, or -1.
module _ (count_hash : Bytes → Bytes) (send_file_to_server : ℕ → Bytes → Bytes → ℤ) where
  -- Three different servers for the part `i`, and the copies sent to them.
  unfoldable pub place : List Bytes → ℕ → Bytes → Exec Draws Entry
  unfolding rand_mod rand_until
  place servers_address i content = do
    let n_serv_addr = length servers_address - 1
    random_i_1 ← rand_mod n_serv_addr
    random_i_2 ← rand_until (λ r. not (random_i_1 == r)) n_serv_addr
    random_i_3 ← rand_until (λ r. not (r == random_i_2 || r == random_i_1)) n_serv_addr
    addr_1 ← first_address (get_or servers_address random_i_1 [])
    let addr_2 = next_address (get_or servers_address random_i_2 [])
    let addr_3 = next_address (get_or servers_address random_i_3 [])
    pure (record {
      hash_file = count_hash content;
      addr_1 = addr_1;
      addr_2 = addr_2;
      addr_3 = addr_3;
      filename_1 = send_file_to_server i addr_1 content;
      filename_2 = send_file_to_server i addr_2 content;
      filename_3 = send_file_to_server i addr_3 content;
    })

  -- The loop over the parts, on the rounds left.
  unfoldable pub place_all : List Bytes → ℕ → Parts → ℕ → ℕ → Exec Draws (List Entry)
  unfolding place
  place_all servers_address part_here files zero i = pure []
  place_all servers_address part_here files (suc rounds) i = do
    entry ← if i == part_here then pure blank else place servers_address i (content_of (files i))
    entries ← place_all servers_address part_here files rounds (i + 1)
    pure (entry ∷ entries)

  abbrev pub kept :
      List Bytes
      → Bytes
      → Bytes
      → Bytes
      → ℕ
      → List ℕ
      → Parts
      → Option ℕ
      → Exec Draws (Option ReferenceFile)
  kept servers_address key iv buf n_files names files none = pure none
  kept servers_address key iv buf n_files names files (some part_here) = do
    entries ← place_all servers_address part_here files (length names) 0
    pure (
        some (record {
          real_files = n_files;
          part_here_file = part_here;
          hash_of_all_file = count_hash buf;
          buf_key = key;
          buf_iv = iv;
          entries = entries;
          part_here_data = content_of (files part_here);
          switch_table_second = names;
        }))

  -- The real parts and the fake ones get their names; `none` is the return value 1.
  unfoldable pub share_parts :
      List Bytes → Bytes → Bytes → Bytes → ℕ → List Bytes → Exec Draws (Option ReferenceFile)
  unfolding draw_names numbers renamed choose_part_here place_all
  share_parts servers_address key iv buf n_files parts = do
    names ← draw_names (length parts) (numbers 0 (length parts))
    let files = renamed names parts (λ name. none)
    chosen ← choose_part_here 1000 n_files (length parts) names files
    kept servers_address key iv buf n_files names files chosen

  -- `buf` is the encrypted file, and `key` and `iv` the files AES.key and AES.iv.
  unfoldable pub share_file : List Bytes → Bytes → Bytes → Bytes → Exec Draws (Option ReferenceFile)
  unfolding rand_mod n_files_size cut k_files_size draw_fakes share_parts
  share_file servers_address key iv buf = do
    let file_size = length buf
    r ← rand_mod file_size
    let n_files = (r + 1) % 50 + 1
    sizes ← n_files_size file_size n_files
    k ← rand_mod (n_files * 3 / 4)
    fake_sizes ← k_files_size (k + 1) (file_size / n_files)
    fakes ← draw_fakes fake_sizes
    share_parts servers_address key iv buf n_files (cut sizes buf ++ fakes)
