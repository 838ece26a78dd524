-- ===== src/Examples/Analyses.antt =====
-- The theorems on the analysis of bcm-linux-console at concrete inputs.
use blockchain_crypto_messan.Common.{◌+◌, refl, [], ◌∷◌, length, arith, text_eq}
use blockchain_crypto_messan.Common.Int.{pos, ◌-ℤ◌}
use blockchain_crypto_messan.Text.Decimal.{to_string}
use blockchain_crypto_messan.Sql.{named, numbered, has_table}
use blockchain_crypto_messan.Sql.Engine.{Node, Runs}
use blockchain_crypto_messan.Pad.{xor_bytes}
use blockchain_crypto_messan.Keys.Laws.{Contact, with_seek}
use blockchain_crypto_messan.Transaction.{compose, max_transaction_length}
use blockchain_crypto_messan.Decrypt.{attempt}
use blockchain_crypto_messan.Chain.Links.{extend}
use blockchain_crypto_messan.Analysis.{analyse_block, analyse_blockchain_for_input_messages}
use blockchain_crypto_messan.Analysis.Wrappers.{with_cursor}
use blockchain_crypto_messan.Analysis.Cursor.{analyse_blockchain-passes}
use blockchain_crypto_messan.Analysis.Filing.{analyse_block-files}
use blockchain_crypto_messan.Analysis.Counters.{with_count, with_message, filed_row}
use blockchain_crypto_messan.Examples.{
  clock, outsider, outsider_known, foreign_blocks-IsChain, memory, memory_lem, alice, bob, carol,
  time, word, key, user_row, node_with, peer, sealed, digest, letter_opened,
}

analyse_blockchain-passes_example :
    Runs memory memory_lem
      (analyse_blockchain_for_input_messages memory (λ s. s) bob clock)
      outsider
      tt
      (with_cursor outsider (pos 2))
unfolding attempt ◌-ℤ◌
analyse_blockchain-passes_example =
    analyse_blockchain-passes memory memory_lem (λ s. s) bob clock digest outsider
      (peer carol [] 0 ∷ []) [] _ _ refl foreign_blocks-IsChain refl
      (refl, omega arith, (outsider_known, tt))
      ((omega arith, (refl, tt)), ((omega arith, (refl, tt)), tt))

-- Bob's node holds the block that Alice has sealed for him.
abbrev of_reader : Node
of_reader = record (node_with (user_row alice key 1 ∷ []) (extend digest [] (sealed ∷ [])) []) {
  tables =
      record (node_with (user_row alice key 1 ∷ []) (extend digest [] (sealed ∷ [])) []).tables {
        correspondence = (alice, []) ∷ [];
      };
}

reader_known : Contact of_reader alice key 1
unfolding named text_eq
reader_known = record {
  new_message = pos 0;
  plain = omega arith;
  row = refl;
  key_NoNul = omega arith;
  key_fits = omega arith;
}

analyse_block-files_example :
    Runs memory memory_lem (analyse_block memory (λ s. s) bob clock (pos 1)) of_reader tt (
      with_cursor
        (with_count
          (with_message
            (with_seek of_reader alice (pos (1 + length sealed)))
            alice
            (filed_row bob (pos 1) alice time word))
          alice
          (pos 1))
        (pos 1))
unfolding numbered named has_table text_eq compose to_string xor_bytes max_transaction_length
analyse_block-files_example =
    analyse_block-files memory memory_lem (λ s. s) bob clock of_reader [] (peer alice key 1) [] _
      (pos 1) 1 0 time word refl (omega arith) (refl, omega arith, (reader_known, tt)) tt
      letter_opened (omega arith) (omega arith) (omega arith) (omega arith) (omega arith) refl refl
      (omega arith, omega arith, omega arith, omega arith, omega arith, refl) refl
