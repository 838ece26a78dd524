-- ===== src/Export.antt =====
-- How a node answers the requests of other nodes for its last hash and its chain:
-- `hash_and_blockchain_server_part_function_i2pd` (bcm-linux-console/Cpp_part.cpp), behind the
-- reading from the socket, and `blockchain_from_DB_to_file_c` (bcm-linux-console/C_part.c).
pub mod Bodies
pub mod Answers
use blockchain_crypto_messan.Common.{
  ℕ, zero, suc, ◌+◌, Option, none, some, Bool, true, false, List, [], ◌∷◌, ◌++◌, length, take, leb,
  if◌then◌else◌, text_eq,
}
use blockchain_crypto_messan.Common.Int.{ℤ, pos, ◌-ℤ◌, ◌+ℤ◌, pos_part}
use blockchain_crypto_messan.Text.{Bytes, c_str}
use blockchain_crypto_messan.Text.Decimal.{to_string, atoi}
use blockchain_crypto_messan.Program.{
  returned, exited, blocked, Exec, pure, undefined, gets, ◌>>=◌, ◌>>◌,
}
use blockchain_crypto_messan.Transaction.{max_transaction_length}
use blockchain_crypto_messan.Sql.{select_transaction_body}
use blockchain_crypto_messan.Keys.{each_row}
use blockchain_crypto_messan.Sql.Engine.{Engine, World, Files, sql_or_exit}
use blockchain_crypto_messan.Chain.{keep_text, get_how_much_id, get_hash_id_container, removed}
use blockchain_crypto_messan.Wire.{get_last_id_hesh, get_actual_blockchain}

-- "blockchain.txt"
abbrev pub blockchain_txt : Bytes
blockchain_txt =
    b'b' ∷ b'l' ∷ b'o' ∷ b'c' ∷ b'k' ∷ b'c' ∷ b'h' ∷ b'a' ∷ b'i' ∷ b'n' ∷ b'.' ∷ b't' ∷ b'x' ∷ b't'
    ∷ []

abbrev pub content_or_empty : Option Bytes → Bytes
content_or_empty none = []
content_or_empty (some content) = content

-- `fopen (filename, "a")`: the file is made if it is not there.
abbrev pub appended : Bytes → Bytes → Files → Files
appended name bytes files other =
    if text_eq other name then some (content_or_empty (files name) ++ bytes) else files other

module _ (e : Engine) where
  abbrev pub write_to_file_name_c : Bytes → Bytes → Exec (World e) (Unit {0})
  write_to_file_name_c buf filename w =
      (returned tt, record w { files = appended filename buf w.files })

  -- The body is copied into a buffer of MAX_TRANSACTION_LENGTH bytes.
  unfoldable pub get_transaction_body_where_id_c : Bytes → Exec (World e) Bytes
  get_transaction_body_where_id_c id_str = do
    rows ← sql_or_exit e (select_transaction_body (atoi id_str))
    let body = each_row keep_text [] rows
    if leb max_transaction_length (length body) then undefined else pure body

  -- `for (i; i <= last_id; i++)`, on the rounds left.
  unfoldable pub bodies_to_file : ℕ → ℤ → Bytes → Exec (World e) (Unit {0})
  unfolding get_transaction_body_where_id_c c_str
  bodies_to_file zero i path_to_buffer_file = pure tt
  bodies_to_file (suc rounds) i path_to_buffer_file = do
    transaction_body ← get_transaction_body_where_id_c (to_string i)
    write_to_file_name_c (c_str transaction_body ++ b'~' ∷ []) path_to_buffer_file
    bodies_to_file rounds (i +ℤ pos 1) path_to_buffer_file

  -- A file that is not there is waited for; at most MAX_TRANSACTION_LENGTH bytes are read.
  abbrev pub read_from_file_to_buffer : Option Bytes → Exec (World e) Bytes
  read_from_file_to_buffer none w = (blocked, w)
  read_from_file_to_buffer (some content) w = (returned (take max_transaction_length content), w)

  unfoldable pub blockchain_from_db_to_file_c : ℤ → Bytes → Exec (World e) Bytes
  unfolding bodies_to_file
  blockchain_from_db_to_file_c from_id path_to_buffer_file = do
    last_id ← get_how_much_id e
    bodies_to_file (pos_part (atoi last_id +ℤ pos 1 -ℤ from_id)) from_id path_to_buffer_file
    content ← gets (λ w. w.files path_to_buffer_file)
    read_from_file_to_buffer content

  -- `remove`, and `exit` if there is nothing to remove.
  abbrev pub remove_or_exit : Bytes → Option Bytes → Exec (World e) (Unit {0})
  remove_or_exit name none w = (exited, w)
  remove_or_exit name (some content) w = (returned tt, record w { files = removed name w.files })

  -- "Error_reading_list_of_user. Try more time", sent where the file cannot be opened
  abbrev pub error_string : Bytes
  error_string =
      b'E' ∷ b'r' ∷ b'r' ∷ b'o' ∷ b'r' ∷ b'_' ∷ b'r' ∷ b'e' ∷ b'a' ∷ b'd' ∷ b'i' ∷ b'n' ∷ b'g'
      ∷ b'_' ∷ b'l' ∷ b'i' ∷ b's' ∷ b't' ∷ b'_' ∷ b'o' ∷ b'f' ∷ b'_' ∷ b'u' ∷ b's' ∷ b'e' ∷ b'r'
      ∷ b'.' ∷ 32 ∷ b'T' ∷ b'r' ∷ b'y' ∷ 32 ∷ b'm' ∷ b'o' ∷ b'r' ∷ b'e' ∷ 32 ∷ b't' ∷ b'i' ∷ b'm'
      ∷ b'e' ∷ []

  abbrev pub sent_file : Option Bytes → Bytes
  sent_file none = error_string
  sent_file (some content) = content

  unfoldable pub send_chain : Exec (World e) (Option Bytes)
  unfolding blockchain_from_db_to_file_c
  send_chain = do
    _ ← blockchain_from_db_to_file_c (pos 1) blockchain_txt
    file ← gets (λ w. w.files blockchain_txt)
    remove_or_exit blockchain_txt file
    pure (some (sent_file file))

  unfoldable pub send_hash : Exec (World e) (Option Bytes)
  unfolding c_str
  send_hash = do
    last_id ← get_how_much_id e
    hash_last_id_container ← get_hash_id_container e last_id
    pure (some (c_str hash_last_id_container))

  -- The answer to a request, `none` where the socket is closed without one.
  unfoldable pub answer_request : Bytes → Exec (World e) (Option Bytes)
  unfolding send_chain send_hash c_str
  answer_request buffer_data_real =
      if text_eq (c_str buffer_data_real) get_last_id_hesh
      then send_hash
      else if text_eq (c_str buffer_data_real) get_actual_blockchain
      then send_chain
      else pure none
