-- ===== src/Accounts.antt =====
-- The correspondents and their messages in the database of a node (bcm-linux-console/Cpp_part.cpp):
-- create_table_for_new_user, update_key_file_for_user and return_my_messages_with_user. The file of
-- the database is there; the key is the file's content, and a statement is a C string.
pub mod First
pub mod Keyed
pub mod Listing
pub mod Registered
pub mod Unopened
use blockchain_crypto_messan.Common.{
  ℕ, Bool, true, false, Option, none, some, List, [], ◌∷◌, ◌++◌, length, ltb, if◌then◌else◌,
}
use blockchain_crypto_messan.Common.Int.{ℤ, pos}
use blockchain_crypto_messan.Text.{Bytes}
use blockchain_crypto_messan.Program.{Exec, pure, exit, undefined, gets, ◌>>=◌, ◌>>◌}
use blockchain_crypto_messan.Sql.{
  UserRow, Row, Statement, select_messages, create_user_table, insert_user, update_key,
}
use blockchain_crypto_messan.Sql.Engine.{
  Engine, World, Reply, cannot_open, sql_error, selected, run_sql,
}
use blockchain_crypto_messan.Keys.{argv, each_row}
use blockchain_crypto_messan.Chain.{remove_file, succeeded}
use blockchain_crypto_messan.Analysis.{exec_opened, analyse_blockchein_for_user_name}

-- MAX_NUMBER_OF_MESSAGES of Cpp_part.h
abbrev pub max_number_of_messages : ℕ
max_number_of_messages = 100

-- The places at one index of the arrays of `user_messages_list_and_pointer`.
pub record ListedMessage : Type 0 where
  pub transaction_id : Bytes
  pub time_of_sending : Bytes
  pub hwo_sender : Bytes
  pub hwo_reciever : Bytes
  pub message : Bytes

abbrev pub listed_message : Row → ListedMessage
listed_message row = record {
  transaction_id = argv row 0;
  time_of_sending = argv row 1;
  hwo_sender = argv row 2;
  hwo_reciever = argv row 3;
  message = argv row 4;
}

-- The callback writes a further message behind the arrays.
unfoldable pub callback_select_user_messages :
    Option (List ListedMessage) → Row → Option (List ListedMessage)
callback_select_user_messages none row = none
callback_select_user_messages (some list) row =
    if ltb (length list) max_number_of_messages
    then some (list ++ listed_message row ∷ [])
    else none

-- What is written into the table for a new correspondent.
abbrev pub new_user : Bytes → Bytes → UserRow
new_user new_user_name buffer_key = record {
  user_name = new_user_name;
  key = buffer_key;
  key_size = pos (length buffer_key);
  key_seek = pos 0;
  new_message = pos 0;
}

module _ (e : Engine) where
  abbrev pub within : Option (List ListedMessage) → Exec (World e) (Option (List ListedMessage))
  within none = undefined
  within (some list) = pure (some list)

  abbrev pub messages_read : Reply → Exec (World e) (Option (List ListedMessage))
  messages_read cannot_open = pure none
  messages_read sql_error = pure none
  messages_read (selected rows) = within (each_row callback_select_user_messages (some []) rows)

  -- `none` stands for the return value -1.
  unfoldable pub return_my_messages_with_user : Bytes → Exec (World e) (Option (List ListedMessage))
  return_my_messages_with_user user_name = do
    reply ← run_sql e (select_messages user_name)
    messages_read reply

  -- `sqlite3_open`, or `exit(1)`
  unfoldable pub open_or_exit : Exec (World e) (Unit {0})
  open_or_exit = do opened ← gets (λ w. e.opens w.db); if opened then pure tt else exit

  module _ (base64_decode : Bytes → Bytes) (my_name : Bytes) (clock : ℤ → Bytes) where
    -- `false` stands for the return value -1.
    abbrev pub registered : Bytes → Bytes → Reply → Exec (World e) Bool
    registered new_user_name path_to_key_file reply =
        if succeeded e reply
        then (do
          remove_file e path_to_key_file
          analyse_blockchein_for_user_name e base64_decode my_name new_user_name clock
          pure true)
        else exit

    abbrev pub tabled : Bytes → Bytes → Bytes → Reply → Exec (World e) Bool
    tabled new_user_name path_to_key_file buffer_key reply =
        if succeeded e reply
        then (do
          inserted ← exec_opened e (insert_user (new_user new_user_name buffer_key))
          registered new_user_name path_to_key_file inserted)
        else pure false

    abbrev pub with_key_file : Bytes → Bytes → Option Bytes → Exec (World e) Bool
    with_key_file new_user_name path_to_key_file none = pure false
    with_key_file new_user_name path_to_key_file (some buffer_key) = do
      created ← exec_opened e (create_user_table new_user_name)
      tabled new_user_name path_to_key_file buffer_key created

    unfoldable pub create_table_for_new_user : Bytes → Bytes → Exec (World e) Bool
    create_table_for_new_user new_user_name path_to_key_file = do
      open_or_exit
      key_file ← gets (λ w. w.files path_to_key_file)
      with_key_file new_user_name path_to_key_file key_file

    abbrev pub rekeyed : Bytes → Bytes → Reply → Exec (World e) Bool
    rekeyed user_name path_to_key_file reply =
        if succeeded e reply
        then (do
          remove_file e path_to_key_file
          analyse_blockchein_for_user_name e base64_decode my_name user_name clock
          pure true)
        else pure false

    abbrev pub with_new_key : Bytes → Bytes → Option Bytes → Exec (World e) Bool
    with_new_key user_name path_to_key_file none = pure false
    with_new_key user_name path_to_key_file (some buffer_key) = do
      updated ← exec_opened e (update_key buffer_key (pos (length buffer_key)) (pos 0) user_name)
      rekeyed user_name path_to_key_file updated

    unfoldable pub update_key_file_for_user : Bytes → Bytes → Exec (World e) Bool
    update_key_file_for_user user_name path_to_key_file = do
      open_or_exit
      key_file ← gets (λ w. w.files path_to_key_file)
      with_new_key user_name path_to_key_file key_file
