-- ===== src/Chain.antt =====
-- The local copy of the chain, BLOCKCHAIN_TABLE, and the wrappers and loops of
-- bcm-linux-console/Cpp_part.cpp (and of the two functions of C_part.c) that read and change it.
pub mod Carried
pub mod File
pub mod Import
pub mod Links
pub mod Identity
pub mod Restart
pub mod Rewind
use blockchain_crypto_messan.Common.{
  ℕ, ◌+◌, ◌-◌, Bool, true, false, Option, none, some, List, [], ◌∷◌, ◌++◌, length, ◌==◌,
  if◌then◌else◌, text_eq,
}
use blockchain_crypto_messan.Common.Int.{ℤ, pos, ◌+ℤ◌, leb_ℤ}
use blockchain_crypto_messan.Text.{Bytes, c_str}
use blockchain_crypto_messan.Text.Decimal.{to_string, atoi}
use blockchain_crypto_messan.Hash.{get_hash_from_string}
use blockchain_crypto_messan.Program.{returned, Exec, pure, exit, undefined, gets, ◌>>=◌, ◌>>◌}
use blockchain_crypto_messan.Transaction.{field}
use blockchain_crypto_messan.Sql.{
  Row, same_int, count_blockchain, select_transaction_body, select_transaction_hash, insert_block,
  delete_blockchain, select_last_analysed_id, select_last_available_id, update_last_analysed_id,
  update_last_available_id,
}
use blockchain_crypto_messan.Sql.Engine.{
  Engine, Files, World, Reply, cannot_open, sql_error, selected, run_sql, sql_or_exit,
}
use blockchain_crypto_messan.Keys.{argv, each_row, get_key_size_for_user, set_key_seek_for_user}
use blockchain_crypto_messan.Decrypt.{return_my_user_list}

-- "0123456789" and "9876543210", the hashes that the first block is given.
abbrev pub default_hesh_before : Bytes
default_hesh_before = 48 ∷ 49 ∷ 50 ∷ 51 ∷ 52 ∷ 53 ∷ 54 ∷ 55 ∷ 56 ∷ 57 ∷ []

abbrev pub default_this_hash : Bytes
default_this_hash = 57 ∷ 56 ∷ 55 ∷ 54 ∷ 53 ∷ 52 ∷ 51 ∷ 50 ∷ 49 ∷ 48 ∷ []

-- "1;1;1;0;encrypt_message;"
abbrev pub encrypt_message_default : Bytes
encrypt_message_default =
    49 ∷ 59 ∷ 49 ∷ 59 ∷ 49 ∷ 59 ∷ 48 ∷ 59 ∷ 101 ∷ 110 ∷ 99 ∷ 114 ∷ 121 ∷ 112 ∷ 116 ∷ 95 ∷ 109 ∷ 101
    ∷ 115 ∷ 115 ∷ 97 ∷ 103 ∷ 101 ∷ 59 ∷ []

-- A callback that keeps `argv[0]`.
abbrev pub keep_text : Bytes → Row → Bytes
keep_text text row = argv row 0

abbrev pub removed : Bytes → Files → Files
removed name files = λ other. if text_eq other name then none else files other

-- `remove(name)`
abbrev pub remove_file : (e : Engine) → Bytes → Exec (World e) (Unit {0})
remove_file e name w = (returned tt, record w { files = removed name w.files })

module _ (e : Engine) where
  -- The text in `*last_id`.
  unfoldable pub how_many_transaction_id : Exec (World e) Bytes
  how_many_transaction_id = do
    rows ← sql_or_exit e count_blockchain
    pure (each_row keep_text [] rows)

  unfoldable pub get_how_much_id : Exec (World e) Bytes
  get_how_much_id = do rows ← sql_or_exit e count_blockchain; pure (each_row keep_text [] rows)

  -- The text in the zero-filled `hash_id_container`; hashes are far shorter than HEX_LENGTH.
  unfoldable pub get_hash_id_container : Bytes → Exec (World e) Bytes
  get_hash_id_container id_str = do
    rows ← sql_or_exit e (select_transaction_hash (atoi id_str))
    pure (each_row keep_text [] rows)

  unfoldable pub get_transaction_body_where_id : ℤ → Exec (World e) Bytes
  get_transaction_body_where_id id = do
    rows ← sql_or_exit e (select_transaction_body id)
    pure (each_row keep_text [] rows)

  unfoldable pub get_last_analysed_id_in_blockchain : Exec (World e) Bytes
  get_last_analysed_id_in_blockchain = do
    rows ← sql_or_exit e select_last_analysed_id
    pure (each_row keep_text [] rows)

  unfoldable pub get_last_available_id_in_blockchain : Exec (World e) Bytes
  get_last_available_id_in_blockchain = do
    rows ← sql_or_exit e select_last_available_id
    pure (each_row keep_text [] rows)

  unfoldable pub set_last_analysed_id_in_blockchain : ℤ → Exec (World e) (Unit {0})
  set_last_analysed_id_in_blockchain id = do sql_or_exit e (update_last_analysed_id id); pure tt

  unfoldable pub set_last_available_id_in_blockchain : ℤ → Exec (World e) (Unit {0})
  set_last_available_id_in_blockchain id = do sql_or_exit e (update_last_available_id id); pure tt

  -- A failed `assert` aborts the process.
  abbrev inserted : Reply → Exec (World e) Bool
  inserted cannot_open = pure false
  inserted sql_error = exit
  inserted (selected rows) = pure true

  -- `true` is the return of 0, `false` that of -1.
  unfoldable pub add_record_to_local_blockchain : ℤ → Bytes → Bytes → Bytes → Exec (World e) Bool
  add_record_to_local_blockchain id encrypt_message hesh_before hesh_this = do
    reply ← run_sql e (
        insert_block (record {
          transaction_id = id;
          transaction_body = c_str encrypt_message;
          transaction_size = pos (length (c_str encrypt_message));
          before_transaction_hash = c_str hesh_before;
          transaction_hash = c_str hesh_this;
        }))
    inserted reply

  abbrev pub succeeded : Reply → Bool
  succeeded cannot_open = false
  succeeded sql_error = false
  succeeded (selected rows) = true

  unfoldable pub clear_blockchain_table : Exec (World e) Bool
  clear_blockchain_table = do reply ← run_sql e delete_blockchain; pure (succeeded reply)

  -- The loop over `struct1.user_list`; what it reads of the key size goes to the console only.
  unfoldable pub zero_seeks : List Bytes → Exec (World e) (Unit {0})
  zero_seeks [] = pure tt
  zero_seeks (user ∷ users) = do
    current_seek ← get_key_size_for_user e user
    set_key_seek_for_user e user (pos 0)
    zero_seeks users

  abbrev zero_listed : Option (List Bytes) → Exec (World e) (Unit {0})
  zero_listed none = exit
  zero_listed (some user_list) = zero_seeks user_list

  unfoldable pub key_seek_zero_for_all_users : Exec (World e) (Unit {0})
  key_seek_zero_for_all_users = do user_list ← return_my_user_list e; zero_listed user_list

  -- What `check_clear_blockchain` does once the limit is reached; the result of the deletion is
  -- not looked at.
  unfoldable pub restart_blockchain : Exec (World e) (Unit {0})
  restart_blockchain = do
    clear_blockchain_table
    added ←
        add_record_to_local_blockchain (pos 1) encrypt_message_default default_hesh_before
          default_this_hash
    if added
        then (do
          set_last_analysed_id_in_blockchain (pos 1)
          set_last_available_id_in_blockchain (pos 1)
          key_seek_zero_for_all_users)
        else exit

  unfoldable pub check_clear_blockchain : ℤ → Exec (World e) (Unit {0})
  check_clear_blockchain limit_number_of_transaction = do
    last_id_c ← get_how_much_id
    if leb_ℤ limit_number_of_transaction (atoi last_id_c) then restart_blockchain else pure tt

  module _ (md5 : Bytes → Bytes) (limit_number_of_transaction : ℤ) where
    -- One transaction of the file: its hashes are computed, it is appended with the next number,
    -- and the limit is checked.
    unfoldable pub add_transaction : ℤ → Bytes → Exec (World e) (Unit {0})
    add_transaction last_id transaction_body = do
      hesh_before ← get_hash_id_container (to_string last_id)
      let hesh_this = get_hash_from_string md5 (transaction_body ++ hesh_before)
      let first = same_int (last_id +ℤ pos 1) (pos 1)
      added ←
          add_record_to_local_blockchain (last_id +ℤ pos 1) transaction_body
            (if first then default_hesh_before else hesh_before)
            (if first then default_this_hash else hesh_this)
      if added then check_clear_blockchain limit_number_of_transaction else exit

    -- The loop over the buffer, from index `i` on: `rest` are the bytes from there, and
    -- `general_length` is where the transaction began.
    unfoldable pub add_transactions : Bytes → Bytes → ℕ → ℕ → ℤ → Exec (World e) (Unit {0})
    add_transactions buf [] i general_length last_id = pure tt
    add_transactions buf (c ∷ rest) i general_length last_id =
        let ended = c == b'~' in
        let this_transaction_size = i - general_length in
        do
          if ended
              then add_transaction last_id (field buf general_length this_transaction_size)
              else pure tt
          add_transactions buf rest (i + 1)
              (if ended then general_length + this_transaction_size + 1 else general_length)
              (if ended then last_id +ℤ pos 1 else last_id)

    -- A file that is not there has no size: the buffer on the stack cannot be laid out.
    abbrev imported : Bytes → Option Bytes → Exec (World e) (Unit {0})
    imported path_to_buffer_file none = undefined
    imported path_to_buffer_file (some buf) = do
      last_id_string ← how_many_transaction_id
      add_transactions buf buf 0 0 (atoi last_id_string)

    -- The file is read, its transactions are added, and it is removed.
    unfoldable pub blockchain_from_file_to_db : Bytes → Exec (World e) (Unit {0})
    blockchain_from_file_to_db path_to_buffer_file = do
      content ← gets (λ w. w.files path_to_buffer_file)
      imported path_to_buffer_file content
      remove_file e path_to_buffer_file
