-- ===== src/Examples/Announced.antt =====
-- The theorems on the announcing of transactions of bcm-linux-console, at concrete inputs.
use blockchain_crypto_messan.Common.{
  refl, inl, true, false, none, some, [], ◌∷◌, ◌++◌, arith, if◌then◌else◌, text_eq,
}
use blockchain_crypto_messan.Common.Int.{pos}
use blockchain_crypto_messan.Text.{Bytes, c_str}
use blockchain_crypto_messan.Text.Decimal.{to_string}
use blockchain_crypto_messan.Program.{pure, ◌>>=◌, ◌>>◌}
use blockchain_crypto_messan.Sql.Engine.{Files, Node, Runs}
use blockchain_crypto_messan.Chain.{removed, blockchain_from_file_to_db}
use blockchain_crypto_messan.Chain.Links.{first_block, next_block}
use blockchain_crypto_messan.Chain.Import.{with_blocks}
use blockchain_crypto_messan.Wire.{Request, hash, blockchain, message, Call, no_response}
use blockchain_crypto_messan.Wire.Client.{answering, get_hash_or_blockchain_i2pd-answered}
use blockchain_crypto_messan.Vote.{Network, gag, count, destinations, keys_folder}
use blockchain_crypto_messan.Export.{appended}
use blockchain_crypto_messan.Server.Agreement.{next_text}
use blockchain_crypto_messan.Announce.{
  answer_length, user_list_client_i2pd_2, public_send_message, send_message_i2pd,
}
use blockchain_crypto_messan.Announce.Ballot.{cast_all, cast_self, cast_silence, cast_answer}
use blockchain_crypto_messan.Announce.Sent.{Voters, send_message_i2pd-majority}
use blockchain_crypto_messan.Examples.{
  peer, memory, memory_lem, alice, bob, carol, word, user_row, node_with, digest,
}

-- No connection at either attempt.
abbrev closed : Call
closed = record {
  connects = λ k. false;
  reply_size = none;
  reply = record { arriving = []; amounts = [] };
}

abbrev announced_replies : Request → Call
announced_replies hash = closed
announced_replies blockchain = closed
announced_replies (message text) = answering text (512 ∷ [])

-- Bob echoes, the others are silent.
abbrev pub echoes : Network
echoes k peer request = if text_eq peer bob then announced_replies request else closed

abbrev pub sender_files : Files
sender_files name =
    if text_eq name user_list_client_i2pd_2
    then some (alice ++ 10 ∷ bob ++ 10 ∷ carol ++ 10 ∷ [])
    else if text_eq name (keys_folder ++ alice ++ public_send_message)
    then some (alice ++ 10 ∷ [])
    else none

abbrev sender : Node
sender = record (node_with (user_row carol [] 0 ∷ []) (first_block digest carol ∷ []) []) {
  files = sender_files;
}

abbrev announced_text : Bytes
announced_text = next_text (first_block digest carol) [] word

voters : Voters sender_files echoes alice announced_text
unfolding text_eq destinations c_str no_response to_string blockchain_crypto_messan.Wire.connected
voters = record {
  list = alice ++ 10 ∷ bob ++ 10 ∷ carol ++ 10 ∷ [];
  peer = alice;
  peers = bob ∷ carol ∷ [];
  c = b'a';
  content = 10 ∷ [];
  answers = announced_text ∷ announced_text ∷ gag ∷ [];
  list_file = refl;
  list_read = refl;
  few = omega arith;
  own_file = refl;
  fits = omega arith;
  cast = cast_self refl (
      cast_answer refl
        (get_hash_or_blockchain_i2pd-answered answer_length (message announced_text) announced_text
          (512 ∷ []) (omega arith) (omega arith) (omega arith) (omega arith) (omega arith))
        refl (omega arith) (cast_silence refl (inl refl) cast_all));
}

send_message_i2pd-majority_example :
    Runs memory memory_lem
      (do
        sent ← send_message_i2pd memory echoes alice word bob
        blockchain_from_file_to_db memory digest (pos 5) bob
        pure sent)
      sender
      (some true)
      (record (with_blocks sender
        (first_block digest carol ∷ next_block digest (first_block digest carol ∷ []) word ∷ [])) {
          files = removed bob (appended bob (word ++ b'~' ∷ []) sender_files);
        })
unfolding voters count text_eq
send_message_i2pd-majority_example =
    send_message_i2pd-majority memory memory_lem digest echoes alice bob sender 5
      (first_block digest carol) [] word voters 1 refl (omega arith, refl, tt) (omega arith)
      (omega arith) refl (omega arith) refl (omega arith)
