-- ===== src/Server.antt =====
-- How a node answers a transaction that another node announces: the part of
-- `send_message_server_part_function_i2pd` (bcm-linux-console/Cpp_part.cpp) behind the reading from
-- the socket. Two writes of a NUL one byte behind an array are left out.
pub mod Accepted
pub mod Agreement
pub mod Answers
pub mod Delivered
pub mod Parsing
pub mod Race
use blockchain_crypto_messan.Common.{
  ℕ, zero, suc, ◌+◌, ◌-◌, Bool, true, false, List, [], ◌∷◌, ◌++◌, ◌&&◌, length, ltb, if◌then◌else◌,
  text_eq,
}
use blockchain_crypto_messan.Common.Int.{ℤ, pos, negsuc, ◌+ℤ◌, ◌-ℤ◌, pos_part}
use blockchain_crypto_messan.Text.{Bytes, c_str}
use blockchain_crypto_messan.Text.Decimal.{to_string, atoi}
use blockchain_crypto_messan.Hash.{get_hash_from_string}
use blockchain_crypto_messan.Program.{
  Outcome, returned, exited, fault, blocked, Exec, pure, exit, undefined, ◌>>=◌, ◌>>◌,
}
use blockchain_crypto_messan.Transaction.{find_separator, next_separator, field}
use blockchain_crypto_messan.Sql.{same_int}
use blockchain_crypto_messan.Sql.Engine.{Engine, World}
use blockchain_crypto_messan.Keys.{buf_size}
use blockchain_crypto_messan.Chain.{
  get_how_much_id, get_hash_id_container, add_record_to_local_blockchain, check_clear_blockchain,
}
use blockchain_crypto_messan.Analysis.{analyse_blockchain_for_input_messages}

-- What is announced: <ID>;<HASH>;<message>
pub record Announcement : Type 0 where
  pub id : ℤ
  pub hash_of_before_id : Bytes
  pub encrypt_message_part : Bytes

abbrev third : ℕ → Bytes → ℕ → ℕ → Outcome Announcement
third recieved_total body size_1 i =
    let len_of_hash = i - 1 - size_1 in
    let len_of_enc_mess = recieved_total - size_1 - len_of_hash - 2 in
    returned (record {
      id = atoi (field body 0 size_1);
      hash_of_before_id = field body (size_1 + 1) len_of_hash;
      encrypt_message_part = field body (size_1 + len_of_hash + 2) len_of_enc_mess;
    })

abbrev pub followed : {A B : Type 0} → (A → Outcome B) → Outcome A → Outcome B
followed next (returned a) = next a
followed next exited = exited
followed next fault = fault
followed next blocked = blocked

-- The loops count up to a limit, BUF_SIZE, and do not stop at the end of the data.
unfoldable pub read_within : ℕ → ℕ → Bytes → Outcome Announcement
read_within limit recieved_total body =
    followed
      (λ size_1.
        followed (λ i. third recieved_total body size_1 i) (next_separator limit body (size_1 + 1)))
      (next_separator limit body 0)

-- `buffer_data_real` is the data and a NUL.
unfoldable pub read_announcement : Bytes → Outcome Announcement
unfolding read_within
read_announcement buffer = read_within buf_size (length buffer) (buffer ++ 0 ∷ [])

module _ (e : Engine) where
  abbrev pub announced : Outcome Announcement → Exec (World e) Announcement
  announced result w = (result, w)

  -- The hashes of the blocks, from the last one to the first.
  unfoldable pub hashes_down : ℕ → Exec (World e) (List Bytes)
  hashes_down zero = pure []
  hashes_down (suc k) = do
    hash ← get_hash_id_container e (to_string (pos (suc k)))
    rest ← hashes_down k
    pure (hash ∷ rest)

  -- The one round of the loop over the hashes: it agrees if the announcement names the last number
  -- and hash of this node. Otherwise the next entries of both arrays are read, which is behind
  -- their ends if there is but one block; with no block already the first entries are.
  abbrev pub compared : Announcement → ℕ → List Bytes → Exec (World e) Bool
  compared a size_buf [] = undefined
  compared a size_buf (hash ∷ rest) =
      if same_int (a.id -ℤ pos 1) (pos size_buf) && text_eq a.hash_of_before_id hash
      then pure true
      else elim rest [ [] ↦ undefined | ◌∷◌ next others ↦ pure false ]

  unfoldable pub agrees : Announcement → Exec (World e) Bool
  agrees a = do
    last_id_c ← get_how_much_id e
    let size_buf = pos_part (atoi last_id_c)
    hashes ← hashes_down size_buf
    compared a size_buf hashes

  module _ (md5 : Bytes → Bytes) (limit_number_of_transaction : ℤ) (base64_decode : Bytes → Bytes)
      (my_name : Bytes) (clock : ℤ → Bytes) where
    -- The transaction becomes the next block, unless it comes from this node itself.
    unfoldable pub accept_announced : Bool → Bytes → Exec (World e) (Unit {0})
    accept_announced from_itself encrypt_message_part = do
      last_id_c1 ← get_how_much_id e
      hesh_before ← get_hash_id_container e last_id_c1
      let hash_from_string = get_hash_from_string md5 (encrypt_message_part ++ hesh_before)
      if from_itself then pure tt else (do
        added ←
            add_record_to_local_blockchain e (atoi last_id_c1 +ℤ pos 1) encrypt_message_part
              hesh_before hash_from_string
        if added
            then (do
              analyse_blockchain_for_input_messages e base64_decode my_name clock
              check_clear_blockchain e limit_number_of_transaction)
            else exit)

    -- The result is what is written to the socket, behind its length: the data itself, before the
    -- transaction is added, or "NO".
    unfoldable pub answer_announcement : Bytes → Bytes → Bytes → Exec (World e) Bytes
    answer_announcement another_dest my_public_send_message buffer = do
      announcement ← announced (read_announcement buffer)
      agreed ← agrees announcement
      if agreed
          then (do
            accept_announced (text_eq another_dest my_public_send_message)
                announcement.encrypt_message_part
            pure (c_str buffer))
          else pure (78 ∷ 79 ∷ [])
