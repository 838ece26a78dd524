-- ===== src/Examples/Rounds.antt =====
-- The theorem on a delivered announcement of bcm-linux-console at a concrete input.
use blockchain_crypto_messan.Common.{refl, none, [], ◌∷◌, arith, text_eq}
use blockchain_crypto_messan.Common.Int.{pos}
use blockchain_crypto_messan.Text.{Bytes}
use blockchain_crypto_messan.Text.Decimal.{to_string}
use blockchain_crypto_messan.Transaction.{compose, max_transaction_length}
use blockchain_crypto_messan.Pad.{xor_bytes}
use blockchain_crypto_messan.Sql.{BlockRow, named, has_table}
use blockchain_crypto_messan.Sql.Engine.{Node, Runs}
use blockchain_crypto_messan.Keys.Laws.{Contact}
use blockchain_crypto_messan.Chain.Links.{first_block}
use blockchain_crypto_messan.Chain.Import.{with_blocks}
use blockchain_crypto_messan.Server.{answer_announcement}
use blockchain_crypto_messan.Server.Accepted.{grown_chain}
use blockchain_crypto_messan.Server.Agreement.{next_text}
use blockchain_crypto_messan.Server.Delivered.{delivered_node, answer_announcement-delivers}
use blockchain_crypto_messan.Replicas.{Member}
use blockchain_crypto_messan.Examples.{
  memory, memory_lem, alice, bob, carol, time, word, key, user_row, node_with, digest, peer, sealed,
  letter_opened, clock,
}

abbrev first : BlockRow
first = first_block digest carol

-- Bob has a key with Alice, and a table for her.
abbrev pub bobs_node : Node
bobs_node = record {
  tables = record (node_with (user_row alice key 1 ∷ []) (first ∷ []) []).tables {
    last_analysed_id = pos 1;
    correspondence = (alice, []) ∷ [];
  };
  files = λ name. none;
}

-- Carol knows Bob, without a key.
abbrev pub carols_node : Node
carols_node = record {
  tables = record (node_with (user_row bob [] 0 ∷ []) (first ∷ []) []).tables {
    last_analysed_id = pos 1;
  };
  files = λ name. none;
}

abbrev pub member : Bytes → Node → Member memory
member name n = record {
  name = name;
  destination = name;
  clock = clock;
  world = record { db = n.tables; files = n.files };
}

pub bob_knows_alice : Contact bobs_node alice key 1
unfolding named text_eq
bob_knows_alice = record {
  new_message = pos 0;
  plain = omega arith;
  row = refl;
  key_NoNul = omega arith;
  key_fits = omega arith;
}

pub carol_knows_bob : Contact carols_node bob [] 0
unfolding named text_eq
carol_knows_bob = record {
  new_message = pos 0;
  plain = omega arith;
  row = refl;
  key_NoNul = tt;
  key_fits = omega arith;
}

answer_announcement-delivers_example :
    Runs memory memory_lem
      (answer_announcement memory digest
        (pos 5)
        (λ s. s)
        bob
        clock
        alice
        bob
        (next_text first [] sealed))
      bobs_node
      (next_text first [] sealed)
      (delivered_node
        (with_blocks bobs_node (grown_chain digest first [] sealed))
        (peer alice key 1)
        bob
        1
        time
        word
        sealed
        0
        2)
unfolding named has_table text_eq compose to_string xor_bytes max_transaction_length memory_lem
answer_announcement-delivers_example =
    answer_announcement-delivers memory memory_lem digest (λ s. s) 5 bob clock bobs_node []
      (peer alice key 1) [] first [] sealed time word alice bob 1 0 refl (omega arith, refl, tt)
      refl (refl, omega arith, (bob_knows_alice, tt)) (omega arith) tt letter_opened (omega arith)
      (omega arith) (omega arith) (omega arith) (omega arith) refl refl
      (omega arith, omega arith, omega arith, omega arith, omega arith, refl) refl (omega arith)
      refl (omega arith)
