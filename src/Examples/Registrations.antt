-- ===== src/Examples/Registrations.antt =====
-- The theorems on the correspondents of bcm-linux-console and their messages, at concrete inputs.
use blockchain_crypto_messan.Common.{
  ℕ, zero, suc, ◌+◌, ◌≡◌, refl, true, none, some, List, [], ◌∷◌, ◌++◌, map, arith, length,
  if◌then◌else◌, text_eq,
}
use blockchain_crypto_messan.Common.Int.{pos, ◌-ℤ◌}
use blockchain_crypto_messan.Text.{Bytes, c_str, strncpy}
use blockchain_crypto_messan.Text.Decimal.{to_string}
use blockchain_crypto_messan.Program.{fault, ◌>>=◌}
use blockchain_crypto_messan.Transaction.{compose}
use blockchain_crypto_messan.Pad.{xor_bytes}
use blockchain_crypto_messan.Identifier.{same_name, any_name, is_table_name, all_letters}
use blockchain_crypto_messan.Sql.{MessageRow, named, messages_of, has_table, update_user}
use blockchain_crypto_messan.Sql.Engine.{Node, Runs}
use blockchain_crypto_messan.Keys.{encrypt_text_message}
use blockchain_crypto_messan.Keys.Laws.{Contact, with_seek}
use blockchain_crypto_messan.Decrypt.{try_decrypt, attempt}
use blockchain_crypto_messan.Decrypt.Delivery.{stretch}
use blockchain_crypto_messan.Chain.Links.{first_block}
use blockchain_crypto_messan.Analysis.{add_record_to_user_table}
use blockchain_crypto_messan.Analysis.Counters.{with_message}
use blockchain_crypto_messan.Accounts.{
  create_table_for_new_user, update_key_file_for_user, return_my_messages_with_user,
}
use blockchain_crypto_messan.Accounts.Registered.{with_user, create_table_for_new_user-Runs}
use blockchain_crypto_messan.Accounts.First.{Ready, register, first_message}
use blockchain_crypto_messan.Accounts.Keyed.{
  with_key, Contact-with_key, update_key_file_for_user-Runs,
}
use blockchain_crypto_messan.Accounts.Listing.{
  IsClean, shown, return_my_messages_with_user-filed, return_my_messages_with_user-overrun,
}
use blockchain_crypto_messan.Examples.{
  memory, memory_lem, alice, bob, carol, time, word, key, key-IsHigh, user_row, node_with, digest,
  peer,
}

-- A node without correspondents, with a key file.
abbrev newcomer : Node
newcomer = record (node_with [] (first_block digest carol ∷ []) []) {
  files = λ name. if text_eq name word then some key else none;
}

alice_ready : Ready memory memory_lem digest (λ s. s) (λ i. []) newcomer alice bob key word []
unfolding named text_eq is_table_name same_name any_name all_letters attempt ◌-ℤ◌ xor_bytes strncpy
    c_str
alice_ready = record {
  can = record {
    table_name = refl;
    free = refl;
    new = refl;
    plain = omega arith;
    plain_key = omega arith;
    key_fits = omega arith;
    key_file = refl;
  };
  roster = (refl, omega arith, tt);
  few = omega arith;
  chain = (omega arith, refl, tt);
  foreign = ((omega arith, (refl, tt)), tt);
}

bob_ready : Ready memory memory_lem digest (λ s. s) (λ i. []) newcomer bob alice key word []
unfolding named text_eq is_table_name same_name any_name all_letters attempt ◌-ℤ◌ xor_bytes strncpy
    c_str
bob_ready = record {
  can = record {
    table_name = refl;
    free = refl;
    new = refl;
    plain = omega arith;
    plain_key = omega arith;
    key_fits = omega arith;
    key_file = refl;
  };
  roster = (refl, omega arith, tt);
  few = omega arith;
  chain = (omega arith, refl, tt);
  foreign = ((omega arith, (refl, tt)), tt);
}

create_table_for_new_user-Runs_example :
    Runs memory memory_lem
      (create_table_for_new_user memory (λ s. s) alice (λ i. []) bob word)
      newcomer
      true
      (with_user newcomer bob key word)
unfolding alice_ready
create_table_for_new_user-Runs_example =
    create_table_for_new_user-Runs memory memory_lem newcomer bob key word alice_ready.can digest
      (λ s. s) alice (λ i. []) [] alice_ready.roster alice_ready.few alice_ready.chain
      alice_ready.foreign

-- Alice and Bob have the same key file, and Alice writes to Bob.
abbrev first_letter : Bytes
first_letter = compose (pos 1) bob alice time word

first_message_example :
    Runs memory memory_lem
      (do
        _ ← register memory memory_lem digest (λ s. s) (λ i. []) alice bob word
        encrypt_text_message memory bob first_letter)
      newcomer
      (some (xor_bytes first_letter (stretch key 0 (length first_letter))))
      (with_seek (with_user newcomer bob key word) bob (pos (0 + length first_letter)))
    × Runs memory memory_lem
        (do
          _ ← register memory memory_lem digest (λ s. s) (λ i. []) bob alice word
          try_decrypt memory bob (xor_bytes first_letter (stretch key 0 (length first_letter))))
        newcomer
        (some first_letter)
        (with_seek (with_user newcomer alice key word) alice (pos (0 + length first_letter)))
unfolding compose to_string
first_message_example =
    first_message memory memory_lem digest (λ s. s) (λ i. []) newcomer newcomer bob alice key word
      word time word 1 [] [] alice_ready bob_ready key-IsHigh (omega arith) (omega arith)
      (omega arith) (omega arith) (omega arith) (omega arith) (omega arith) tt

-- A node that has exchanged messages with Bob, and gets a new key for him.
abbrev note : ℕ → MessageRow
note id = record {
  id_transaction = pos id;
  hwo_sender = alice;
  hwo_receiver = bob;
  time_of_sending = time;
  message = word;
}

abbrev notes : ℕ → List MessageRow
notes zero = []
notes (suc k) = note k ∷ notes k

abbrev writer : ℕ → Node
writer k = record {
  tables =
      record (node_with (user_row bob carol 1 ∷ []) (first_block digest carol ∷ []) []).tables {
        correspondence = (bob, notes k) ∷ [];
      };
  files = newcomer.files;
}

note-IsClean : (id : ℕ) → IsClean (note id)
note-IsClean id = record {
  id = id;
  numbered = refl;
  time = omega arith;
  sender = omega arith;
  receiver = omega arith;
  text = omega arith;
}

return_my_messages_with_user-filed_example :
    Runs memory memory_lem
      (do
        _ ← add_record_to_user_table memory bob (pos 7) alice bob time word
        return_my_messages_with_user memory bob)
      (writer 2)
      (some (map shown (notes 2) ++ shown (note 7) ∷ []))
      (with_message (writer 2) bob (note 7))
unfolding is_table_name same_name any_name all_letters text_eq messages_of has_table
return_my_messages_with_user-filed_example =
    return_my_messages_with_user-filed memory memory_lem (writer 2) bob (note 7)
      (omega arith, omega arith, omega arith, omega arith, omega arith, refl) refl
      (note-IsClean 1, (note-IsClean 0, tt)) (note-IsClean 7) (omega arith)

return_my_messages_with_user-overrun_example :
    (return_my_messages_with_user memory bob
      (record { db = (writer 101).tables; files = newcomer.files })).0
    ≡ fault
unfolding is_table_name same_name any_name all_letters text_eq messages_of has_table memory_lem
return_my_messages_with_user-overrun_example =
    return_my_messages_with_user-overrun memory memory_lem (writer 101) bob _ refl refl refl
      (omega arith)

carol_key : Contact (writer 0) bob carol 1
unfolding named text_eq
carol_key = record {
  new_message = pos 0;
  plain = omega arith;
  row = refl;
  key_NoNul = omega arith;
  key_fits = omega arith;
}

update_key_file_for_user-Runs_example :
    Runs memory memory_lem
      (update_key_file_for_user memory (λ s. s) alice (λ i. []) bob word)
      (writer 0)
      true
      (with_key (writer 0) bob key word)
unfolding named text_eq attempt ◌-ℤ◌ xor_bytes strncpy c_str update_user
update_key_file_for_user-Runs_example =
    update_key_file_for_user-Runs memory memory_lem (writer 0) bob key word digest (λ s. s) alice
      (λ i. []) (peer bob key 0 ∷ []) refl (omega arith) (omega arith)
      (refl, omega arith, (Contact-with_key key word carol_key (omega arith) (omega arith), tt))
      (omega arith, refl, tt) ((omega arith, (refl, tt)), tt)
