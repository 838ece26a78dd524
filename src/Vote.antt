-- ===== src/Vote.antt =====
-- How a node takes over the chain of its peers: `get_actual_blockchain_copy_i2pd`
-- (bcm-linux-console/Cpp_part.cpp) asks each peer of a list for the hash of its last block, elects
-- the hash that most of them have, and asks the first peer that has it for its chain; and
-- `hash_and_blockchain_server_part_function_i2pd`, which answers such requests.
pub mod Count
pub mod Election
pub mod Fetch
pub mod Adopt
use blockchain_crypto_messan.Common.{
  ℕ, zero, suc, ◌+◌, ◌-◌, Bool, true, false, not, ◌&&◌, List, [], ◌∷◌, ◌++◌, map, Option, none,
  some, length, take, get_or, ltb, leb, ◌==◌, if◌then◌else◌, text_eq,
}
use blockchain_crypto_messan.Text.{Bytes, c_str}
use blockchain_crypto_messan.Program.{
  Outcome, returned, exited, fault, Exec, pure, exit, undefined, gets, ◌>>=◌, ◌>>◌,
}
use blockchain_crypto_messan.Sql.Engine.{Engine, World, Files}
use blockchain_crypto_messan.Common.Int.{ℤ}
use blockchain_crypto_messan.Chain.{
  get_how_much_id, get_hash_id_container, clear_blockchain_table, blockchain_from_file_to_db,
}
use blockchain_crypto_messan.Wire.{
  Request, hash, blockchain, Call, no_response, get_hash_or_blockchain_i2pd,
}

-- `MAX`, the places of the arrays; `HEX_LENGTH`, the size of a hash or a chain; and the longest line.
abbrev pub max_peers : ℕ
max_peers = 10

abbrev pub hex_length : ℕ
hex_length = 10000

abbrev pub max_destination_length : ℕ
max_destination_length = 1000

abbrev pub max_trying_times : ℕ
max_trying_times = 3

-- "GAG", the entry of a peer that does not answer.
abbrev pub gag : Bytes
gag = b'G' ∷ b'A' ∷ b'G' ∷ []

-- `fgets` with room for so many bytes: a line with its end, and what follows it.
unfoldable pub fgets : ℕ → Bytes → Bytes × Bytes
fgets zero text = ([], text)
fgets (suc room) [] = ([], [])
fgets (suc room) (c ∷ text) =
    let (line, rest) = fgets room text in if c == 10 then (c ∷ [], text) else (c ∷ line, rest)

-- The line is copied up to its first NUL, and its last byte is overwritten; an empty one would be
-- written to in front of the array.
unfoldable pub destination : Bytes → Option Bytes
unfolding c_str
destination line =
    if length (c_str line) == 0 then none else some (take (length (c_str line) - 1) (c_str line))

abbrev pub entered : Option Bytes → Option (List Bytes) → Option (List Bytes)
entered none peers = none
entered (some peer) none = none
entered (some peer) (some peers) = some (peer ∷ peers)

-- The loop over the lines, on a fuel of the rounds left.
unfoldable pub destinations : ℕ → Bytes → Option (List Bytes)
unfolding fgets destination
destinations zero text = some []
destinations (suc rounds) [] = some []
destinations (suc rounds) (c ∷ text) =
    let (line, rest) = fgets (max_destination_length - 1) (c ∷ text) in
    entered (destination line) (destinations rounds rest)

-- Each hash with its frequency.
unfoldable pub count : Bytes → List Bytes → ℕ
count h [] = 0
count h (x ∷ xs) = (if text_eq h x then 1 else 0) + count h xs

abbrev pub frequence : List Bytes → List Bytes → List ℕ
frequence hashes [] = []
frequence hashes (h ∷ hs) = count h hashes ∷ frequence hashes hs

-- The first of the largest: (`maximum`, `maximum_ID`). The code tests the last element behind its
-- loop, in the same way.
unfoldable pub find_maximum : ℕ → ℕ → ℕ → List ℕ → ℕ × ℕ
find_maximum i maximum maximum_id [] = (maximum, maximum_id)
find_maximum i maximum maximum_id (f ∷ fs) =
    find_maximum (i + 1) (if ltb maximum f then f else maximum)
      (if ltb maximum f then i else maximum_id) fs

-- The first peer with this frequency that answered.
unfoldable pub first_with : ℕ → ℕ → List ℕ → List Bytes → Option ℕ
first_with new_max i [] hashes = none
first_with new_max i (f ∷ fs) [] = none
first_with new_max i (f ∷ fs) (h ∷ hs) =
    let rest = first_with new_max (i + 1) fs hs in
    if f == new_max && not (text_eq h gag) then some i else rest

abbrev pub or_id : Option ℕ → ℕ → ℕ
or_id (some i) other = i
or_id none other = other

-- `while (new_max != 0)`
unfoldable pub find_new_max : ℕ → List ℕ → List Bytes → ℕ → ℕ
unfolding first_with
find_new_max zero fs hashes maximum_id = maximum_id
find_new_max (suc new_max) fs hashes maximum_id =
    or_id (first_with (suc new_max) 0 fs hashes) (find_new_max new_max fs hashes maximum_id)

-- The place of the peer whose chain is asked for.
unfoldable pub elect : List Bytes → ℕ
unfolding count find_maximum find_new_max
elect hashes =
    let fs = frequence hashes hashes in
    let (maximum, maximum_id) = find_maximum 0 0 0 fs in
    let again = find_new_max maximum fs hashes maximum_id in
    if text_eq (get_or hashes maximum_id []) gag then again else maximum_id

-- "Keys/user_list_client_i2pd.txt"
abbrev pub user_list_client_i2pd : Bytes
user_list_client_i2pd =
    b'K' ∷ b'e' ∷ b'y' ∷ b's' ∷ b'/' ∷ b'u' ∷ b's' ∷ b'e' ∷ b'r' ∷ b'_' ∷ b'l' ∷ b'i' ∷ b's' ∷ b't'
    ∷ b'_' ∷ b'c' ∷ b'l' ∷ b'i' ∷ b'e' ∷ b'n' ∷ b't' ∷ b'_' ∷ b'i' ∷ b'2' ∷ b'p' ∷ b'd' ∷ b'.'
    ∷ b't' ∷ b'x' ∷ b't' ∷ []

-- "Keys/"
abbrev pub keys_folder : Bytes
keys_folder = b'K' ∷ b'e' ∷ b'y' ∷ b's' ∷ b'/' ∷ []

-- "/PUBLIC_hash_and_blockchain.txt"
abbrev pub public_hash_and_blockchain : Bytes
public_hash_and_blockchain =
    b'/' ∷ b'P' ∷ b'U' ∷ b'B' ∷ b'L' ∷ b'I' ∷ b'C' ∷ b'_' ∷ b'h' ∷ b'a' ∷ b's' ∷ b'h' ∷ b'_' ∷ b'a'
    ∷ b'n' ∷ b'd' ∷ b'_' ∷ b'b' ∷ b'l' ∷ b'o' ∷ b'c' ∷ b'k' ∷ b'c' ∷ b'h' ∷ b'a' ∷ b'i' ∷ b'n'
    ∷ b'.' ∷ b't' ∷ b'x' ∷ b't' ∷ []

-- "actual_blockchain.txt"
abbrev pub actual_blockchain : Bytes
actual_blockchain =
    b'a' ∷ b'c' ∷ b't' ∷ b'u' ∷ b'a' ∷ b'l' ∷ b'_' ∷ b'b' ∷ b'l' ∷ b'o' ∷ b'c' ∷ b'k' ∷ b'c' ∷ b'h'
    ∷ b'a' ∷ b'i' ∷ b'n' ∷ b'.' ∷ b't' ∷ b'x' ∷ b't' ∷ []

-- `fopen` for writing, `fwrite`, `fclose`.
abbrev pub stored : Bytes → Bytes → Files → Files
stored name content files other = if text_eq other name then some content else files other

-- What the network does with the k-th call to a peer.
abbrev pub Network : Type 0
Network = ℕ → Bytes → Request → Call

module _ (e : Engine) where
  -- The buffer's last byte that was read is overwritten; an empty file would be written to in front
  -- of the buffer.
  unfoldable pub own_destination : Option Bytes → Exec (World e) Bytes
  unfolding c_str
  own_destination none = exit
  own_destination (some []) = undefined
  own_destination (some (c ∷ content)) =
      let read = take max_destination_length (c ∷ content) in
      pure (c_str (take (length read - 1) read))

  abbrev pub ended : {A : Type 0} → Outcome A → Exec (World e) A
  ended outcome w = (outcome, w)

  -- The hash of the last block of this node.
  unfoldable pub own_hash : Exec (World e) Bytes
  own_hash = do last_id ← get_how_much_id e; get_hash_id_container e last_id

  -- The entry of a peer by the text in the buffer.
  unfoldable pub entry : Bytes → Exec (World e) Bytes
  unfolding no_response own_hash
  entry res_buf =
      if text_eq res_buf (no_response hash)
      then (own_hash >> pure gag)
      else if leb hex_length (length res_buf)
      then undefined
      else pure res_buf

  unfoldable pub ask_hash : Call → Exec (World e) Bytes
  unfolding entry
  ask_hash call = do
    res_buf ← ended (get_hash_or_blockchain_i2pd (hex_length + 1) hash call)
    entry res_buf

  unfoldable pub poll : Network → Bytes → ℕ → List Bytes → Exec (World e) (List Bytes)
  unfolding ask_hash own_hash
  poll network pd j [] = pure []
  poll network pd j (peer ∷ peers) = do
    h ← if text_eq peer pd then own_hash else ask_hash (network j peer hash)
    hs ← poll network pd (j + 1) peers
    pure (h ∷ hs)

  unfoldable pub ask_blockchain : Call → Exec (World e) Bytes
  unfolding get_hash_or_blockchain_i2pd
  ask_blockchain call = ended (get_hash_or_blockchain_i2pd hex_length blockchain call)

  -- The repeated requests, on the rounds left.
  unfoldable pub fetch_again : ℕ → Network → ℕ → Bytes → Bytes → Exec (World e) Bytes
  unfolding ask_blockchain
  fetch_again zero network k peer res_buf = pure res_buf
  fetch_again (suc rounds) network k peer res_buf =
      let again = (do
        answer ← ask_blockchain (network k peer blockchain)
        fetch_again rounds network (k + 1) peer answer) in
      if text_eq res_buf (no_response blockchain) then again else pure res_buf

  unfoldable pub fetch : Network → ℕ → Bytes → Exec (World e) Bytes
  unfolding ask_blockchain fetch_again
  fetch network k peer = do
    res_buf ← ask_blockchain (network k peer blockchain)
    fetch_again max_trying_times network (k + 1) peer res_buf

  -- A buffer without a NUL is read behind its end.
  unfoldable pub keep_chain : Bytes → Exec (World e) (Unit {0})
  keep_chain res_buf w =
      if leb hex_length (length res_buf)
      then (fault, w)
      else (returned tt, record w { files = stored actual_blockchain res_buf w.files })

  -- The list has no more entries than the arrays have places; with none at all the code reads
  -- `frequence[-1]`.
  unfoldable pub with_peers : Network → Bytes → List Bytes → Exec (World e) (Unit {0})
  unfolding poll fetch keep_chain elect
  with_peers network pd [] = undefined
  with_peers network pd (peer ∷ peers) = do
    hashes ← poll network pd 0 (peer ∷ peers)
    chain ← fetch network (length (peer ∷ peers)) (get_or (peer ∷ peers) (elect hashes) [])
    keep_chain chain

  abbrev pub listed : Option (List Bytes) → Exec (World e) (List Bytes)
  listed none = undefined
  listed (some peers) = if ltb max_peers (length peers) then undefined else pure peers

  abbrev pub polled : Network → Bytes → Option Bytes → Exec (World e) Bool
  polled network name none = pure false
  polled network name (some list) = do
    peers ← listed (destinations (length list) list)
    own ← gets (λ w. w.files (keys_folder ++ name ++ public_hash_and_blockchain))
    pd ← own_destination own
    with_peers network pd peers
    pure true

  -- `false` stands for the return value -1, with no list of peers.
  unfoldable pub get_actual_blockchain_copy_i2pd : Network → Bytes → Exec (World e) Bool
  unfolding destinations own_destination with_peers
  get_actual_blockchain_copy_i2pd network my_name = do
    list ← gets (λ w. w.files user_list_client_i2pd)
    polled network my_name list

  -- How the messenger brings its chain up to date: the file is fetched, the table emptied, and the
  -- file imported.
  unfoldable pub update_blockchain :
      (md5 : Bytes → Bytes) → ℤ → Network → Bytes → Exec (World e) (Unit {0})
  update_blockchain md5 limit_number_of_transaction network my_name = do
    _ ← get_actual_blockchain_copy_i2pd network my_name
    _ ← clear_blockchain_table e
    blockchain_from_file_to_db e md5 limit_number_of_transaction actual_blockchain
