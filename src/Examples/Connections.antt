-- ===== src/Examples/Connections.antt =====
-- The theorems on connections to the servers of bcm-linux-console at concrete inputs.
use blockchain_crypto_messan.Common.{ℕ, ◌≡◌, refl, none, some, List, [], ◌∷◌, ◌++◌, arith, text_eq}
use blockchain_crypto_messan.Common.Int.{pos, ◌-ℤ◌}
use blockchain_crypto_messan.Text.Decimal.{to_string}
use blockchain_crypto_messan.Program.{returned, fault}
use blockchain_crypto_messan.Sql.Engine.{World, Runs}
use blockchain_crypto_messan.Decrypt.{attempt}
use blockchain_crypto_messan.Hash.{get_hash_from_string}
use blockchain_crypto_messan.Chain.Import.{with_blocks}
use blockchain_crypto_messan.Analysis.Wrappers.{with_cursor}
use blockchain_crypto_messan.Wire.{get_last_id_hesh}
use blockchain_crypto_messan.Export.{answer_request}
use blockchain_crypto_messan.Server.Accepted.{grown_chain}
use blockchain_crypto_messan.Server.Agreement.{next_text}
use blockchain_crypto_messan.Connection.{zero_bytes, serve_announcement, serve_request}
use blockchain_crypto_messan.Connection.Served.{
  Introduced, connection, serve_request-answers, serve_request-halves, serve-closed,
  serve_announcement-accepts,
}
use blockchain_crypto_messan.Examples.Servers.{
  analysed_outsider, analysed_outsider_known, block_one, block_two,
}
use blockchain_crypto_messan.Examples.{
  memory, memory_lem, alice, bob, carol, word, peer, digest, foreign_blocks-IsChain, clock,
}

abbrev ones : List ℕ
ones = 1 ∷ 1 ∷ []

-- What stood in the array before.
abbrev stack : ℕ → ℕ
stack i = 0

bob-Introduced : Introduced bob ones
bob-Introduced = record {
  clean = omega arith;
  line = (refl, tt);
  steady = omega arith;
  bytes = refl;
  short = omega arith;
}

abbrev world : World memory
world = record { db = analysed_outsider.tables; files = analysed_outsider.files }

serve_request-answers_example :
    serve_request memory stack (connection bob get_last_id_hesh (ones ++ 4 ∷ 512 ∷ [])) world
    ≡ answer_request memory get_last_id_hesh world
serve_request-answers_example =
    serve_request-answers memory stack bob get_last_id_hesh ones 4 (512 ∷ []) world bob-Introduced
      (omega arith) (omega arith) (omega arith) (omega arith)

serve_request-halves_example :
    serve_request memory stack (connection bob get_last_id_hesh (ones ++ 2 ∷ 2 ∷ 512 ∷ [])) world
    ≡ (returned none, world)
serve_request-halves_example =
    serve_request-halves memory stack bob get_last_id_hesh ones (512 ∷ []) world bob-Introduced
      (omega arith)

serve-closed_example :
    (serve_request memory stack (record { arriving = alice; amounts = ones }) world
      ≡ (fault, world))
    × (serve_announcement memory stack digest
          (pos 5)
          (λ s. s)
          bob
          clock
          bob
          zero_bytes
          (record { arriving = alice; amounts = ones })
          world
        ≡ (fault, world))
serve-closed_example =
    serve-closed memory stack (record { arriving = alice; amounts = ones }) digest (λ s. s) (pos 5)
      bob clock bob zero_bytes world (refl, tt)

-- Bob's node takes Bob's own announcement for that of another.
serve_announcement-accepts_example :
    Runs memory memory_lem
      (serve_announcement memory stack digest
        (pos 5)
        (λ s. s)
        bob
        clock
        bob
        zero_bytes
        (connection bob
          (next_text block_one (block_two ∷ []) (word ++ word))
          (ones ++ 4 ∷ 512 ∷ [])))
      analysed_outsider
      (some (next_text block_one (block_two ∷ []) (word ++ word)))
      (with_cursor
        (with_blocks analysed_outsider
          (grown_chain digest block_one (block_two ∷ []) (word ++ word)))
        (pos 3))
unfolding to_string attempt ◌-ℤ◌ text_eq get_hash_from_string
serve_announcement-accepts_example =
    serve_announcement-accepts memory stack memory_lem digest (λ s. s) 5 bob clock analysed_outsider
      (peer carol [] 0 ∷ []) block_one (block_two ∷ []) bob (word ++ word) bob zero_bytes ones 4
      (512 ∷ []) bob-Introduced (refl, tt) (omega arith) (omega arith) (omega arith) (omega arith)
      refl foreign_blocks-IsChain refl (refl, omega arith, (analysed_outsider_known, tt))
      (omega arith, (refl, tt)) (omega arith) (omega arith)
