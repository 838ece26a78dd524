-- ===== src/Examples/Chains.antt =====
-- The theorems on the chain of bcm-linux-console at concrete inputs.
use blockchain_crypto_messan.Common.{◌≡◌, refl, List, [], ◌∷◌, arith, text_eq}
use blockchain_crypto_messan.Common.Int.{pos}
use blockchain_crypto_messan.Sql.{BlockRow}
use blockchain_crypto_messan.Sql.Engine.{Node, Runs}
use blockchain_crypto_messan.Chain.{
  add_transaction, blockchain_from_file_to_db, restart_blockchain, removed,
}
use blockchain_crypto_messan.Chain.Links.{IsChain, first_block, next_block, extend, extend-IsChain}
use blockchain_crypto_messan.Chain.Identity.{last_hash-blocks}
use blockchain_crypto_messan.Chain.Import.{with_blocks}
use blockchain_crypto_messan.Chain.File.{file_of, blockchain_from_file_to_db-Runs, replica}
use blockchain_crypto_messan.Chain.Restart.{
  restarted, AtRest, restart_blockchain-Runs, add_transaction-AtRest,
}
use blockchain_crypto_messan.Examples.{
  memory, memory_lem, alice, bob, carol, key, user_row, buffer_name, node_with, digest,
}

-- A chain of two blocks, and the node that has it.
abbrev two_blocks : List BlockRow
two_blocks = extend digest [] (alice ∷ bob ∷ [])

abbrev with_chain : Node
with_chain = node_with (user_row bob key 1 ∷ []) two_blocks (file_of (carol ∷ []))

abbrev without_chain : Node
without_chain = node_with (user_row bob key 1 ∷ []) [] (file_of (alice ∷ bob ∷ []))

two_blocks-IsChain : IsChain digest two_blocks
two_blocks-IsChain = extend-IsChain digest [] (alice ∷ bob ∷ []) tt (omega arith)

with_chain-AtRest : AtRest digest 5 with_chain
with_chain-AtRest = (two_blocks-IsChain, omega arith, (omega arith, omega arith))

blockchain_from_file_to_db-Runs_example :
    Runs memory memory_lem
      (blockchain_from_file_to_db memory digest (pos 5) buffer_name)
      with_chain
      tt
      (record (with_blocks with_chain (extend digest two_blocks (carol ∷ []))) {
        files = removed buffer_name with_chain.files;
      })
unfolding text_eq
blockchain_from_file_to_db-Runs_example =
    blockchain_from_file_to_db-Runs memory memory_lem digest 5 buffer_name (carol ∷ []) with_chain
      two_blocks refl refl two_blocks-IsChain (omega arith) (omega arith)

replica_example :
    Runs memory memory_lem
      (blockchain_from_file_to_db memory digest (pos 5) buffer_name)
      without_chain
      tt
      (record (with_blocks without_chain two_blocks) {
        files = removed buffer_name without_chain.files;
      })
unfolding text_eq
replica_example =
    replica memory memory_lem digest 5 buffer_name without_chain two_blocks refl refl
      two_blocks-IsChain (omega arith) (omega arith)

restart_blockchain-Runs_example :
    Runs memory memory_lem (restart_blockchain memory) with_chain tt (restarted with_chain)
restart_blockchain-Runs_example =
    restart_blockchain-Runs memory memory_lem with_chain (omega arith, omega arith)

add_transaction-AtRest_example :
    (n' : Node) × Runs memory memory_lem
      (add_transaction memory digest (pos 5) (pos 2) carol)
      with_chain
      tt
      n'
    × AtRest digest 5 n'
add_transaction-AtRest_example =
    add_transaction-AtRest memory memory_lem digest with_chain 5 carol (omega arith)
      with_chain-AtRest (omega arith)

last_hash-blocks_example :
    next_block digest (first_block digest alice ∷ []) bob ∷ []
    ≡ next_block digest (first_block digest carol ∷ []) bob ∷ []
last_hash-blocks_example =
    last_hash-blocks digest 1 (first_block digest alice) (first_block digest carol)
      (next_block digest (first_block digest alice ∷ []) bob ∷ [])
      (next_block digest (first_block digest carol ∷ []) bob ∷ []) (λ s. refl) two_blocks-IsChain
      (extend-IsChain digest [] (carol ∷ bob ∷ []) tt (omega arith)) (((λ same. refl), tt), tt) refl
      refl
