-- ===== src/Examples/Servers.antt =====
-- The theorems on the answers of a node of bcm-linux-console at concrete inputs.
use blockchain_crypto_messan.Common.{refl, [], ◌∷◌, ◌++◌, arith, text_eq}
use blockchain_crypto_messan.Common.Int.{pos, ◌-ℤ◌}
use blockchain_crypto_messan.Text.Decimal.{to_string}
use blockchain_crypto_messan.Text.{Bytes}
use blockchain_crypto_messan.Program.{pure, ◌>>=◌}
use blockchain_crypto_messan.Server.Race.{answer, answer_announcement-twice}
use blockchain_crypto_messan.Sql.{BlockRow, named}
use blockchain_crypto_messan.Sql.Engine.{Node, Runs}
use blockchain_crypto_messan.Keys.Laws.{Contact}
use blockchain_crypto_messan.Decrypt.{attempt}
use blockchain_crypto_messan.Hash.{get_hash_from_string}
use blockchain_crypto_messan.Chain.Links.{first_block, next_block}
use blockchain_crypto_messan.Chain.Import.{with_blocks}
use blockchain_crypto_messan.Analysis.Wrappers.{with_cursor}
use blockchain_crypto_messan.Server.{answer_announcement}
use blockchain_crypto_messan.Server.Parsing.{announcement_text}
use blockchain_crypto_messan.Server.Agreement.{next_text}
use blockchain_crypto_messan.Server.Answers.{answer_announcement-refuses}
use blockchain_crypto_messan.Examples.{
  memory, memory_lem, alice, bob, carol, word, peer, digest, outsider, foreign_blocks-IsChain,
  clock,
}

abbrev pub analysed_outsider : Node
analysed_outsider = with_cursor outsider (pos 2)

pub analysed_outsider_known : Contact analysed_outsider carol [] 0
unfolding named text_eq
analysed_outsider_known = record {
  new_message = pos 0;
  plain = omega arith;
  row = refl;
  key_NoNul = tt;
  key_fits = omega arith;
}

abbrev pub block_one : BlockRow
block_one = first_block digest (alice ++ alice)

abbrev pub block_two : BlockRow
block_two = next_block digest (block_one ∷ []) (bob ++ bob)

answer_announcement-refuses_example :
    Runs memory memory_lem
      (answer_announcement memory digest
        (pos 5)
        (λ s. s)
        bob
        clock
        alice
        bob
        (announcement_text (to_string (pos 2)) alice word))
      analysed_outsider
      (78 ∷ 79 ∷ [])
      analysed_outsider
unfolding to_string get_hash_from_string ◌-ℤ◌
answer_announcement-refuses_example =
    answer_announcement-refuses memory memory_lem digest (λ s. s) 5 bob clock analysed_outsider
      block_one block_two [] 2 alice word alice bob refl foreign_blocks-IsChain refl (omega arith)
      (omega arith) (omega arith)

answer_announcement-twice_example :
    Runs memory memory_lem {A = Bytes × Bytes}
      (do
        reply_1 ←
            answer memory memory_lem digest
              (λ s. s)
              5
              bob
              clock
              alice
              bob
              (next_text block_one (block_two ∷ []) (word ++ word))
        reply_2 ←
            answer memory memory_lem digest
              (λ s. s)
              5
              bob
              clock
              carol
              bob
              (next_text block_one (block_two ∷ []) alice)
        pure (reply_1, reply_2))
      analysed_outsider
      (next_text block_one (block_two ∷ []) (word ++ word), 78 ∷ 79 ∷ [])
      (with_cursor
        (with_blocks analysed_outsider (
          block_one
          ∷ block_two
          ∷ next_block digest (block_one ∷ block_two ∷ []) (word ++ word)
          ∷ []))
        (pos 3))
unfolding to_string attempt ◌-ℤ◌ text_eq get_hash_from_string
answer_announcement-twice_example =
    answer_announcement-twice memory memory_lem digest (λ s. s) 5 bob clock analysed_outsider
      (peer carol [] 0 ∷ []) block_one (block_two ∷ []) (word ++ word) alice alice carol bob refl
      foreign_blocks-IsChain refl (refl, omega arith, (analysed_outsider_known, tt))
      (omega arith, (refl, tt)) (omega arith) (omega arith) refl (omega arith)
