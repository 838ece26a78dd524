-- ===== src/Analysis.antt =====
-- The analysis of the blocks that have come in (bcm-linux-console/Cpp_part.cpp): each one is
-- decrypted, and what is addressed to this node is filed in the table of its correspondent. The
-- base64 decoder and the clock are parameters; the directory for files is taken to be there.
pub mod Counters
pub mod Cursor
pub mod Filing
pub mod Wrappers
use blockchain_crypto_messan.Common.{
  ℕ, zero, suc, ◌+◌, Bool, true, false, Option, none, some, List, [], ◌∷◌, ◌++◌, ◌&&◌, ◌||◌, length,
  drop, get_or, ltb, ◌==◌, if◌then◌else◌, text_eq,
}
use blockchain_crypto_messan.Common.Int.{ℤ, pos, negsuc, ◌+ℤ◌, ◌-ℤ◌, pos_part}
use blockchain_crypto_messan.Text.{Bytes, c_str}
use blockchain_crypto_messan.Text.Decimal.{atoi}
use blockchain_crypto_messan.Program.{
  Outcome, returned, Exec, pure, exit, undefined, gets, ◌>>=◌, ◌>>◌,
}
use blockchain_crypto_messan.Transaction.{Transaction, parser}
use blockchain_crypto_messan.Sql.{
  Row, Statement, same_int, select_new_message, update_new_message, insert_message,
}
use blockchain_crypto_messan.Sql.Engine.{
  Engine, Files, World, Reply, cannot_open, sql_error, selected, run_sql,
}
use blockchain_crypto_messan.Keys.{argv, each_row}
use blockchain_crypto_messan.Decrypt.{try_decrypt}
use blockchain_crypto_messan.Chain.{
  how_many_transaction_id, get_last_analysed_id_in_blockchain, get_transaction_body_where_id,
  set_last_analysed_id_in_blockchain, set_last_available_id_in_blockchain, succeeded,
}

-- "INPUT_FILES/"
abbrev pub dir_name : Bytes
dir_name = 73 ∷ 78 ∷ 80 ∷ 85 ∷ 84 ∷ 95 ∷ 70 ∷ 73 ∷ 76 ∷ 69 ∷ 83 ∷ 47 ∷ []

-- "FILE. Path_to_file: "
abbrev pub path_to_file : Bytes
path_to_file =
    70 ∷ 73 ∷ 76 ∷ 69 ∷ 46 ∷ 32 ∷ 80 ∷ 97 ∷ 116 ∷ 104 ∷ 95 ∷ 116 ∷ 111 ∷ 95 ∷ 102 ∷ 105 ∷ 108 ∷ 101
    ∷ 58 ∷ 32 ∷ []

-- The number is not set before the call, so that a name without a row leaves it undefined.
callback_select_count_new_message : Option ℤ → Row → Option ℤ
callback_select_count_new_message count_now row = some (atoi (argv row 0))

abbrev pub written : Bytes → Bytes → Files → Files
written name content files = λ other. if text_eq other name then some content else files other

module _ (e : Engine) where
  -- A statement on a database that has been opened.
  unfoldable pub exec_opened : Statement → Exec (World e) Reply
  exec_opened s w =
      let (ok, rows, db) = e.exec w.db s in
      (returned (if ok then selected rows else sql_error), record w { db = db })

  unfoldable pub counted : Reply → Exec (World e) ℤ
  unfolding callback_select_count_new_message
  counted cannot_open = pure (negsuc 0)
  counted sql_error = pure (negsuc 0)
  counted (selected rows) = elim (each_row callback_select_count_new_message none rows) [
    | none ↦ undefined
    | some count_now ↦ pure count_now
  ]

  unfoldable pub get_count_new_message : Bytes → Exec (World e) ℤ
  get_count_new_message user_name = do
    reply ← run_sql e (select_new_message user_name)
    counted reply

  -- `true` is the return of 0, `false` that of -1.
  unfoldable pub update_new_message_count_to_user : Bytes → ℤ → Exec (World e) Bool
  update_new_message_count_to_user user_name add_or_null =
      if same_int add_or_null (pos 0) || same_int add_or_null (pos 1)
      then (do
        opened ← gets (λ w. e.opens w.db)
        if opened
            then (do
              new_value ←
                  (if same_int add_or_null (pos 1)
                    then (do count_now ← get_count_new_message user_name; pure (count_now +ℤ pos 1))
                    else pure (pos 0))
              reply ← exec_opened (update_new_message new_value user_name)
              pure (succeeded e reply))
            else pure false)
      else exit

  unfoldable pub add_record_to_user_table :
      Bytes → ℤ → Bytes → Bytes → Bytes → Bytes → Exec (World e) Bool
  add_record_to_user_table user_name id hwo_sender hwo_reciever time_of_sending decrypt_message = do
    reply ← run_sql e (
        insert_message user_name (record {
          id_transaction = id;
          hwo_sender = hwo_sender;
          hwo_receiver = hwo_reciever;
          time_of_sending = time_of_sending;
          message = decrypt_message;
        }))
    pure (succeeded e reply)

  abbrev pub parsed : Outcome Transaction → Exec (World e) Transaction
  parsed result w = (result, w)

  module _ (base64_decode : Bytes → Bytes) (my_name : Bytes) where
    -- A text that begins with `$` is a file: what follows its first six bytes, "$file$", is decoded
    -- and written. A shorter text is read behind its end.
    unfoldable pub analyse_input_message_for_file_content : Bytes → Bytes → Exec (World e) Bytes
    analyse_input_message_for_file_content filename_date_time input_message =
        if get_or input_message 0 0 == b'$'
        then (if ltb (length input_message) 6 then undefined else (do
          let where_write = dir_name ++ filename_date_time
          (λ w. (
            returned tt,
            record w { files = written where_write (base64_decode (drop 6 input_message)) w.files },
          ))
          pure (path_to_file ++ where_write)))
        else pure input_message

    -- What is done with a parsed transaction.
    unfoldable pub file_transaction : Bytes → Transaction → Exec (World e) (Unit {0})
    file_transaction filename_date_time struct_transaction =
        if text_eq struct_transaction.reciever my_name || text_eq struct_transaction.sender my_name
        then (do
          message_for_add_str ←
              analyse_input_message_for_file_content filename_date_time
                struct_transaction.decrypt_message
          added ←
              add_record_to_user_table
                (if text_eq struct_transaction.sender my_name
                  then struct_transaction.reciever
                  else struct_transaction.sender)
                struct_transaction.id struct_transaction.sender struct_transaction.reciever
                struct_transaction.time_of_sending message_for_add_str
          if added && text_eq struct_transaction.reciever my_name
              then (do update_new_message_count_to_user struct_transaction.sender (pos 1); pure tt)
              else pure tt)
        else pure tt

    abbrev pub examined : Bytes → Option Bytes → Exec (World e) (Unit {0})
    examined filename_date_time none = pure tt
    examined filename_date_time (some transaction_body_dec) = do
      struct_transaction ← parsed (parser transaction_body_dec)
      file_transaction filename_date_time struct_transaction

    -- One round of the loop, for the block `ii`.
    unfoldable pub analyse_block : (ℤ → Bytes) → ℤ → Exec (World e) (Unit {0})
    analyse_block clock ii = do
      transaction_body ← get_transaction_body_where_id e ii
      transaction_body_dec ← try_decrypt e my_name transaction_body
      examined (clock ii) transaction_body_dec
      set_last_analysed_id_in_blockchain e ii
      set_last_available_id_in_blockchain e ii

    -- `for (ii; ii <= last_id; ii++)`, with the number of rounds that are left.
    unfoldable pub analyse_blocks : (ℤ → Bytes) → ℕ → ℤ → Exec (World e) (Unit {0})
    analyse_blocks clock zero ii = pure tt
    analyse_blocks clock (suc rounds) ii = do
      analyse_block clock ii
      analyse_blocks clock rounds (ii +ℤ pos 1)

    unfoldable pub analyse_blockchain_for_input_messages : (ℤ → Bytes) → Exec (World e) (Unit {0})
    analyse_blockchain_for_input_messages clock = do
      last_analysed_id_string ← get_last_analysed_id_in_blockchain e
      last_id_string ← how_many_transaction_id e
      let last_analysed_id = atoi last_analysed_id_string
      analyse_blocks clock (pos_part (atoi last_id_string -ℤ last_analysed_id))
          (last_analysed_id +ℤ pos 1)

    -- What is done with a parsed transaction when a new correspondent's messages are looked for.
    unfoldable pub file_transaction_of : Bytes → Bytes → Transaction → Exec (World e) (Unit {0})
    file_transaction_of user_name filename_date_time struct_transaction =
        if text_eq struct_transaction.reciever my_name
          && text_eq struct_transaction.sender user_name
        then (do
          message_for_add_str ←
              analyse_input_message_for_file_content filename_date_time
                struct_transaction.decrypt_message
          added ←
              add_record_to_user_table struct_transaction.sender struct_transaction.id
                struct_transaction.sender struct_transaction.reciever
                struct_transaction.time_of_sending message_for_add_str
          if added && text_eq struct_transaction.reciever my_name
              then (do update_new_message_count_to_user struct_transaction.sender (pos 1); pure tt)
              else pure tt)
        else pure tt

    abbrev examined_of : Bytes → Bytes → Option Bytes → Exec (World e) (Unit {0})
    examined_of user_name filename_date_time none = pure tt
    examined_of user_name filename_date_time (some transaction_body_dec) = do
      struct_transaction ← parsed (parser transaction_body_dec)
      file_transaction_of user_name filename_date_time struct_transaction

    -- The loop of `analyse_blockchein_for_user_name`; the cursor is left alone.
    unfoldable pub analyse_blocks_of : Bytes → (ℤ → Bytes) → ℕ → ℤ → Exec (World e) (Unit {0})
    analyse_blocks_of user_name clock zero ii = pure tt
    analyse_blocks_of user_name clock (suc rounds) ii = do
      transaction_body ← get_transaction_body_where_id e ii
      transaction_body_dec ← try_decrypt e my_name transaction_body
      examined_of user_name (clock ii) transaction_body_dec
      analyse_blocks_of user_name clock rounds (ii +ℤ pos 1)

    unfoldable pub analyse_blockchein_for_user_name :
        Bytes → (ℤ → Bytes) → Exec (World e) (Unit {0})
    analyse_blockchein_for_user_name user_name clock = do
      last_id_string ← how_many_transaction_id e
      analyse_blocks_of user_name clock (pos_part (atoi last_id_string)) (pos 1)
