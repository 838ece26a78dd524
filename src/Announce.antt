-- ===== src/Announce.antt =====
-- How a node announces a transaction: `send_message_i2pd` (bcm-linux-console/Cpp_part.cpp) sends it
-- with its number and the hash before it to each peer of a list, elects the answer that most of them
-- give, and puts the transaction into a file from which the next block is made. A write of a NUL one
-- byte behind an array is left out.
pub mod Ballot
pub mod Sent
use blockchain_crypto_messan.Common.{
  ℕ, zero, suc, ◌+◌, Bool, true, false, Option, none, some, List, [], ◌∷◌, ◌++◌, length, get_or,
  ltb, leb, ◌==◌, if◌then◌else◌, text_eq,
}
use blockchain_crypto_messan.Common.Int.{ℤ, pos, ◌+ℤ◌}
use blockchain_crypto_messan.Text.{Bytes, c_str}
use blockchain_crypto_messan.Text.Decimal.{to_string, atoi}
use blockchain_crypto_messan.Program.{Exec, pure, undefined, gets, ◌>>=◌, ◌>>◌}
use blockchain_crypto_messan.Sql.Engine.{Engine, World}
use blockchain_crypto_messan.Chain.{get_how_much_id, get_hash_id_container}
use blockchain_crypto_messan.Wire.{message, Call, no_response, get_hash_or_blockchain_i2pd}
use blockchain_crypto_messan.Vote.{
  Network, gag, destinations, elect, keys_folder, own_destination, ended, listed,
}
use blockchain_crypto_messan.Export.{write_to_file_name_c}

-- `ANSWER_LENGTH`
abbrev pub answer_length : ℕ
answer_length = 1000001

-- "Keys/user_list_client_i2pd_2.txt"
abbrev pub user_list_client_i2pd_2 : Bytes
user_list_client_i2pd_2 =
    b'K' ∷ b'e' ∷ b'y' ∷ b's' ∷ b'/' ∷ b'u' ∷ b's' ∷ b'e' ∷ b'r' ∷ b'_' ∷ b'l' ∷ b'i' ∷ b's' ∷ b't'
    ∷ b'_' ∷ b'c' ∷ b'l' ∷ b'i' ∷ b'e' ∷ b'n' ∷ b't' ∷ b'_' ∷ b'i' ∷ b'2' ∷ b'p' ∷ b'd' ∷ b'_'
    ∷ b'2' ∷ b'.' ∷ b't' ∷ b'x' ∷ b't' ∷ []

-- "/PUBLIC_send_message.txt"
abbrev pub public_send_message : Bytes
public_send_message =
    b'/' ∷ b'P' ∷ b'U' ∷ b'B' ∷ b'L' ∷ b'I' ∷ b'C' ∷ b'_' ∷ b's' ∷ b'e' ∷ b'n' ∷ b'd' ∷ b'_' ∷ b'm'
    ∷ b'e' ∷ b's' ∷ b's' ∷ b'a' ∷ b'g' ∷ b'e' ∷ b'.' ∷ b't' ∷ b'x' ∷ b't' ∷ []

-- "NO"
abbrev pub no_answer : Bytes
no_answer = b'N' ∷ b'O' ∷ []

-- "%s;%s" twice: the number, the hash of the last block, the transaction.
abbrev pub request : Bytes → Bytes → Bytes → Bytes
request id hash encrypt_message = id ++ b';' ∷ (hash ++ b';' ∷ encrypt_message)

-- What follows so many separators; the loop runs out of the array if there are fewer.
unfoldable pub behind_separators : ℕ → Bytes → Option Bytes
behind_separators zero answer = some answer
behind_separators (suc n) [] = none
behind_separators (suc n) (c ∷ answer) = behind_separators (if c == b';' then n else suc n) answer

module _ (e : Engine) where
  -- The node's own request, as its own answer.
  abbrev pub own_answer : Bytes → Exec (World e) Bytes
  own_answer text = if leb answer_length (length text + 1) then undefined else pure text

  unfoldable pub answer_entry : Bytes → Bytes → Exec (World e) Bytes
  unfolding no_response
  answer_entry text res_buf =
      if text_eq res_buf (no_response (message text))
      then (own_answer text >> pure gag)
      else if leb answer_length (length res_buf)
      then undefined
      else pure res_buf

  unfoldable pub ask_answer : Bytes → Call → Exec (World e) Bytes
  unfolding answer_entry
  ask_answer text call = do
    res_buf ← ended e (get_hash_or_blockchain_i2pd answer_length (message text) call)
    answer_entry text res_buf

  -- The loop over the peers; the node's own destination is read each time.
  unfoldable pub ballot : Network → Bytes → Bytes → ℕ → List Bytes → Exec (World e) (List Bytes)
  unfolding ask_answer own_destination
  ballot network my_name text j [] = pure []
  ballot network my_name text j (peer ∷ peers) = do
    own ← gets (λ w. w.files (keys_folder ++ my_name ++ public_send_message))
    pd ← own_destination e own
    answer ←
        if text_eq peer pd then own_answer text else ask_answer text (network j peer (message text))
    answers ← ballot network my_name text (j + 1) peers
    pure (answer ∷ answers)

  abbrev pub written_block : Bytes → Option Bytes → Exec (World e) Bool
  written_block path_to_buf_file none = undefined
  written_block path_to_buf_file (some block) = do
    write_to_file_name_c e (block ++ b'~' ∷ []) path_to_buf_file
    pure true

  -- `false` stands for the return value 1: most peers refuse.
  abbrev pub decided : Bytes → Bytes → Exec (World e) Bool
  decided path_to_buf_file answer =
      if text_eq answer no_answer
      then pure false
      else written_block path_to_buf_file (behind_separators 2 answer)

  -- What is asked and decided behind the chain with the number `current_last_id`.
  unfoldable pub asked : Network → Bytes → Bytes → Bytes → List Bytes → Bytes → Exec (World e) Bool
  unfolding elect c_str behind_separators
  asked network my_name encrypt_message path_to_buf_file peers current_last_id = do
    last_id_container_hash ← get_hash_id_container e (to_string (atoi current_last_id))
    let new_last_id = to_string (atoi current_last_id +ℤ pos 1)
    answers ←
        ballot network my_name (request new_last_id last_id_container_hash (c_str encrypt_message))
          0 peers
    decided path_to_buf_file (get_or answers (elect answers) [])

  -- With no peer at all the code reads `frequence[-1]`.
  unfoldable pub with_ballot : Network → Bytes → Bytes → Bytes → List Bytes → Exec (World e) Bool
  unfolding asked
  with_ballot network my_name encrypt_message path_to_buf_file [] = undefined
  with_ballot network my_name encrypt_message path_to_buf_file (peer ∷ peers) = do
    current_last_id ← get_how_much_id e
    asked network my_name encrypt_message path_to_buf_file (peer ∷ peers) current_last_id

  abbrev pub listed_ballot :
      Network → Bytes → Bytes → Bytes → Option Bytes → Exec (World e) (Option Bool)
  listed_ballot network my_name encrypt_message path_to_buf_file none = pure none
  listed_ballot network my_name encrypt_message path_to_buf_file (some list) = do
    peers ← listed e (destinations (length list) list)
    sent ← with_ballot network my_name encrypt_message path_to_buf_file peers
    pure (some sent)

  -- `none` stands for the return value -1, with no list of peers.
  unfoldable pub send_message_i2pd : Network → Bytes → Bytes → Bytes → Exec (World e) (Option Bool)
  unfolding destinations with_ballot
  send_message_i2pd network my_name encrypt_message path_to_buf_file = do
    list ← gets (λ w. w.files user_list_client_i2pd_2)
    listed_ballot network my_name encrypt_message path_to_buf_file list
