-- ===== src/Examples/Sendings.antt =====
-- The theorems on the sending of a message of bcm-linux-console, at concrete inputs.
use blockchain_crypto_messan.Common.{
  refl, inl, false, some, [], ◌∷◌, ◌++◌, arith, if◌then◌else◌, text_eq, length, take, drop,
}
use blockchain_crypto_messan.Common.Int.{pos, ◌-ℤ◌}
use blockchain_crypto_messan.Text.{Bytes, c_str}
use blockchain_crypto_messan.Text.Decimal.{to_string, atoi}
use blockchain_crypto_messan.Sql.Engine.{Files, Node, Runs, Runs-bind, Runs-pure, Runs-file}
use blockchain_crypto_messan.Chain.{removed}
use blockchain_crypto_messan.Chain.Links.{first_block}
use blockchain_crypto_messan.Chain.Import.{with_blocks, how_many_transaction_id-Runs}
use blockchain_crypto_messan.Wire.{Request, hash, blockchain, message, Call, no_response}
use blockchain_crypto_messan.Wire.Client.{answering, get_hash_or_blockchain_i2pd-answered}
use blockchain_crypto_messan.Vote.{
  Network, gag, count, destinations, actual_blockchain, user_list_client_i2pd, update_blockchain,
  get_actual_blockchain_copy_i2pd,
}
use blockchain_crypto_messan.Server.Agreement.{next_text}
use blockchain_crypto_messan.Announce.{answer_length, no_answer}
use blockchain_crypto_messan.Announce.Ballot.{cast_all, cast_self, cast_silence, cast_answer}
use blockchain_crypto_messan.Announce.Sent.{Voters}
use blockchain_crypto_messan.Messenger.{renewed, send_text}
use blockchain_crypto_messan.Messenger.Refused.{send_text-refused}
use blockchain_crypto_messan.Messenger.Accepted.{send_text-accepted, taken, filed}
use blockchain_crypto_messan.Decrypt.{attempt}
use blockchain_crypto_messan.Examples.{
  peer, key, time, memory, memory_lem, alice, bob, carol, word, user_row, node_with, digest,
}
use blockchain_crypto_messan.Vote.Adopt.{clear_blockchain_table-Runs}
use blockchain_crypto_messan.Chain.File.{blockchain_from_file_to_db-Runs}
use blockchain_crypto_messan.Analysis.Wrappers.{get_last_analysed_id_in_blockchain-Runs}
use blockchain_crypto_messan.Keys.Laws.{Contact}
use blockchain_crypto_messan.Sql.{named, update_user}
use blockchain_crypto_messan.Pad.{xor_bytes}
use blockchain_crypto_messan.Transaction.{compose}
use blockchain_crypto_messan.Analysis.{analyse_blockchain_for_input_messages}
use blockchain_crypto_messan.Examples.Announced.{echoes, sender_files}

-- The others refuse.
abbrev pub refusals : Network
refusals k peer request = answering no_answer (512 ∷ [])

abbrev refused_files : Files
refused_files name = if text_eq name actual_blockchain then some [] else sender_files name

-- Alice has a key for Bob, and no list of peers for the update.
abbrev refused_sender : Node
refused_sender = record (node_with (user_row bob key 1 ∷ []) (first_block digest carol ∷ []) []) {
  files = refused_files;
}

abbrev after_update : Node
after_update = record (with_blocks refused_sender []) {
  files = removed actual_blockchain refused_files;
}

bob_known_here : Contact refused_sender bob key 1
unfolding named text_eq
bob_known_here = record {
  new_message = pos 0;
  plain = omega arith;
  row = refl;
  key_NoNul = omega arith;
  key_fits = omega arith;
}

abbrev refused_text : Bytes
refused_text =
    let text = compose (pos 2) bob alice time word in
    next_text (first_block digest carol) [] (xor_bytes text (take (length text) (drop 1 key)))

refusers : Voters refused_files refusals alice refused_text
unfolding text_eq destinations c_str no_response to_string blockchain_crypto_messan.Wire.connected
    compose xor_bytes
refusers = record {
  list = alice ++ 10 ∷ bob ++ 10 ∷ carol ++ 10 ∷ [];
  peer = alice;
  peers = bob ∷ carol ∷ [];
  c = b'a';
  content = 10 ∷ [];
  answers = refused_text ∷ no_answer ∷ no_answer ∷ [];
  list_file = refl;
  list_read = refl;
  few = omega arith;
  own_file = refl;
  fits = omega arith;
  cast = cast_self refl (
      cast_answer refl
        (get_hash_or_blockchain_i2pd-answered answer_length (message refused_text) no_answer
          (512 ∷ []) (omega arith) (omega arith) (omega arith) (omega arith) (omega arith))
        refl (omega arith)
        (cast_answer refl
          (get_hash_or_blockchain_i2pd-answered answer_length (message refused_text) no_answer
            (512 ∷ []) (omega arith) (omega arith) (omega arith) (omega arith) (omega arith))
          refl (omega arith) cast_all));
}

update-Runs :
    Runs memory memory_lem
      (update_blockchain memory digest (pos 5) refusals alice)
      refused_sender
      tt
      after_update
unfolding update_blockchain get_actual_blockchain_copy_i2pd text_eq
update-Runs =
    Runs-bind memory memory_lem _
      (Runs-bind memory memory_lem _
        (Runs-file memory memory_lem user_list_client_i2pd refused_sender)
        (Runs-pure memory memory_lem false refused_sender))
      (Runs-bind memory memory_lem _ (clear_blockchain_table-Runs memory memory_lem refused_sender)
        (blockchain_from_file_to_db-Runs memory memory_lem digest 5 actual_blockchain []
          (with_blocks refused_sender []) [] refl refl tt tt (omega arith)))

renewed-Runs :
    Runs memory memory_lem
      (renewed memory digest (λ s. s) (pos 5) refusals refusals alice (λ i. []))
      refused_sender
      tt
      after_update
unfolding renewed analyse_blockchain_for_input_messages to_string atoi ◌-ℤ◌
    blockchain_crypto_messan.Analysis.analyse_blocks
renewed-Runs = Runs-bind memory memory_lem _ update-Runs (
    Runs-bind memory memory_lem _
      (get_last_analysed_id_in_blockchain-Runs memory memory_lem after_update 0 refl)
      (Runs-bind memory memory_lem _ (how_many_transaction_id-Runs memory memory_lem after_update)
        (Runs-pure memory memory_lem tt after_update)))

send_text-refused_example :
    Runs memory memory_lem
      (send_text memory digest (λ s. s) (pos 5) refusals refusals alice (λ i. []) bob time word)
      refused_sender
      tt
      after_update
unfolding refusers count text_eq compose to_string xor_bytes
send_text-refused_example =
    send_text-refused memory memory_lem digest (λ s. s) (pos 5) refusals refusals alice (λ i. [])
      refused_sender after_update (first_block digest carol) [] bob key time word 1 refusers 1 refl
      (omega arith, refl, tt) bob_known_here (omega arith) (omega arith) (omega arith) (omega arith)
      refl (omega arith) renewed-Runs

-- The same node with a chain that it has analysed, and a table for Bob.
abbrev pub accepted_sender : Node
accepted_sender = record {
  tables = record refused_sender.tables {
    last_analysed_id = pos 1;
    correspondence = (bob, []) ∷ [];
  };
  files = sender_files;
}

pub bob_known_there : Contact accepted_sender bob key 1
unfolding named text_eq
bob_known_there = record {
  new_message = pos 0;
  plain = omega arith;
  row = refl;
  key_NoNul = omega arith;
  key_fits = omega arith;
}

accepters : Voters sender_files echoes alice refused_text
unfolding text_eq destinations c_str no_response to_string blockchain_crypto_messan.Wire.connected
    compose xor_bytes
accepters = record {
  list = alice ++ 10 ∷ bob ++ 10 ∷ carol ++ 10 ∷ [];
  peer = alice;
  peers = bob ∷ carol ∷ [];
  c = b'a';
  content = 10 ∷ [];
  answers = refused_text ∷ refused_text ∷ gag ∷ [];
  list_file = refl;
  list_read = refl;
  few = omega arith;
  own_file = refl;
  fits = omega arith;
  cast = cast_self refl (
      cast_answer refl
        (get_hash_or_blockchain_i2pd-answered answer_length (message refused_text) refused_text
          (512 ∷ []) (omega arith) (omega arith) (omega arith) (omega arith) (omega arith))
        refl (omega arith) (cast_silence refl (inl refl) cast_all));
}

abbrev pub behind_import : Node
behind_import = taken digest alice accepted_sender (first_block digest carol) [] bob key time word 1

pub bob_known_behind : Contact behind_import bob key 11
unfolding named text_eq update_user compose to_string
bob_known_behind = record {
  new_message = pos 0;
  plain = omega arith;
  row = refl;
  key_NoNul = omega arith;
  key_fits = omega arith;
}

send_text-accepted_example :
    Runs memory memory_lem
      (send_text memory digest (λ s. s) (pos 5) echoes refusals alice (λ i. []) bob time word)
      accepted_sender
      tt
      (filed digest alice accepted_sender (first_block digest carol) [] bob key time word 1)
unfolding accepters count text_eq compose to_string xor_bytes attempt ◌-ℤ◌ update_user
    blockchain_crypto_messan.Sql.has_table
send_text-accepted_example =
    send_text-accepted digest alice accepted_sender (first_block digest carol) [] bob key time word
      1 memory memory_lem (λ s. s) 5 echoes refusals (λ i. []) (peer bob key 11 ∷ []) refl
      (omega arith, refl, tt) refl (omega arith) refl (omega arith)
      (refl, omega arith, (bob_known_behind, tt)) (omega arith, (refl, tt))
      (omega arith, omega arith, omega arith, omega arith, omega arith, refl) accepters 1
      bob_known_there (omega arith) (omega arith) (omega arith) refl (omega arith)
