-- ===== src/Messenger.antt =====
-- How the messenger sends a text message over i2pd (bcm-linux-console/Messenger.cpp): it is composed,
-- encrypted and announced; then it is taken into the chain and filed, or the key is given back and
-- the chain brought up to date.
pub mod Accepted
pub mod Refused
use blockchain_crypto_messan.Common.{Bool, true, false, Option, none, some, [], ◌∷◌, length}
use blockchain_crypto_messan.Common.Int.{ℤ, pos, ◌+ℤ◌, ◌-ℤ◌}
use blockchain_crypto_messan.Text.{Bytes, c_str}
use blockchain_crypto_messan.Text.Decimal.{atoi}
use blockchain_crypto_messan.Program.{Exec, pure, exit, ◌>>=◌, ◌>>◌}
use blockchain_crypto_messan.Transaction.{compose}
use blockchain_crypto_messan.Sql.Engine.{Engine, World}
use blockchain_crypto_messan.Keys.{
  get_key_seek_for_user, set_key_seek_for_user, encrypt_text_message,
}
use blockchain_crypto_messan.Chain.{get_how_much_id, blockchain_from_file_to_db}
use blockchain_crypto_messan.Analysis.{
  add_record_to_user_table, analyse_blockchain_for_input_messages,
}
use blockchain_crypto_messan.Vote.{Network, update_blockchain}
use blockchain_crypto_messan.Announce.{send_message_i2pd}

-- "buf_file.txt"
abbrev pub buf_file : Bytes
buf_file = b'b' ∷ b'u' ∷ b'f' ∷ b'_' ∷ b'f' ∷ b'i' ∷ b'l' ∷ b'e' ∷ b'.' ∷ b't' ∷ b'x' ∷ b't' ∷ []

module _ (e : Engine) where
  -- The offset of the key goes back by the length of the message.
  unfoldable pub give_back : Bytes → Bytes → Exec (World e) (Unit {0})
  give_back user_name text_message = do
    cur_seek ← get_key_seek_for_user e user_name
    let different = cur_seek -ℤ pos (length (c_str text_message))
    set_key_seek_for_user e user_name different

  -- `announcing` is the network while the message is announced, `updating` while the chain is
  -- brought up to date.
  module _ (md5 base64_decode : Bytes → Bytes) (limit_number_of_transaction : ℤ)
      (announcing updating : Network) (my_name : Bytes) (clock : ℤ → Bytes) where
    unfoldable pub renewed : Exec (World e) (Unit {0})
    renewed = do
      update_blockchain e md5 limit_number_of_transaction updating my_name
      analyse_blockchain_for_input_messages e base64_decode my_name clock

    unfoldable pub taken_in : ℤ → Bytes → Bytes → Bytes → Exec (World e) (Unit {0})
    taken_in new_id_number user_name date_time message = do
      blockchain_from_file_to_db e md5 limit_number_of_transaction buf_file
      analyse_blockchain_for_input_messages e base64_decode my_name clock
      _ ← add_record_to_user_table e user_name new_id_number my_name user_name date_time message
      pure tt

    abbrev pub concluded :
        ℤ → Bytes → Bytes → Bytes → Bytes → Option Bool → Exec (World e) (Unit {0})
    concluded new_id_number user_name date_time message text_message none = exit
    concluded new_id_number user_name date_time message text_message (some true) =
        taken_in new_id_number user_name date_time message
    concluded new_id_number user_name date_time message text_message (some false) = do
      give_back user_name text_message
      renewed

    -- Without enough key the messenger goes back to its menu.
    abbrev pub announced_if :
        ℤ → Bytes → Bytes → Bytes → Bytes → Option Bytes → Exec (World e) (Unit {0})
    announced_if new_id_number user_name date_time message text_message none = pure tt
    announced_if new_id_number user_name date_time message text_message (some encrypt_message) = do
      res_send ← send_message_i2pd e announcing my_name encrypt_message buf_file
      concluded new_id_number user_name date_time message text_message res_send

    unfoldable pub numbered_message : Bytes → Bytes → Bytes → ℤ → Exec (World e) (Unit {0})
    numbered_message user_name date_time message new_id_number = do
      let text_message = compose new_id_number user_name my_name date_time message
      encrypt_message ← encrypt_text_message e user_name text_message
      announced_if new_id_number user_name date_time message text_message encrypt_message

    unfoldable pub send_text : Bytes → Bytes → Bytes → Exec (World e) (Unit {0})
    send_text user_name date_time message = do
      last_id ← get_how_much_id e
      numbered_message user_name date_time message (atoi last_id +ℤ pos 1)
