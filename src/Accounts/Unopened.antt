-- ===== src/Accounts/Unopened.antt =====
-- The search of the whole chain for a correspondent's messages (bcm-linux-console/Cpp_part.cpp,
-- analyse_blockchein_for_user_name) where no key of the node opens a block.
use blockchain_crypto_messan.Common.{
  ◌+◌, ◌≡◌, refl, sym, ap, subst, ◌∙◌, List, [], ◌∷◌, ◌++◌, arith, length, append_assoc,
  length-append, All,
}
use blockchain_crypto_messan.Common.Int.{ℤ, pos}
use blockchain_crypto_messan.Text.{Bytes}
use blockchain_crypto_messan.Text.Decimal.{atoi-to_string}
use blockchain_crypto_messan.Sql.{BlockRow, numbered}
use blockchain_crypto_messan.Sql.Engine.{Engine, IsSqlite, Node, Runs, Runs-pure, Runs-bind}
use blockchain_crypto_messan.Keys.Encrypt.{pos-+ℤ}
use blockchain_crypto_messan.Decrypt.Roster.{Peer, try_decrypt-none}
use blockchain_crypto_messan.Chain.Links.{IsChain, IsChain-Ids, Ids}
use blockchain_crypto_messan.Chain.Import.{how_many_transaction_id-Runs}
use blockchain_crypto_messan.Analysis.{analyse_blocks_of, analyse_blockchein_for_user_name}
use blockchain_crypto_messan.Analysis.Wrappers.{
  Roster, numbered_at, get_transaction_body_where_id-Runs,
}
use blockchain_crypto_messan.Analysis.Cursor.{Foreign}

module _ (e : Engine) (q : IsSqlite e) (base64_decode : Bytes → Bytes) (my_name : Bytes)
    (clock : ℤ → Bytes) (n : Node) (peers : List Peer) (user : Bytes)
    (roster : Roster e q n peers) where
  analyse_blocks_of-Foreign :
      (before rest : List BlockRow)
      → n.blockchain ≡ before ++ rest
      → Ids 1 (before ++ rest)
      → All (Foreign e q base64_decode my_name clock n peers) rest
      → Runs e q
          (analyse_blocks_of e base64_decode my_name user clock
            (length rest)
            (pos (1 + length before)))
          n
          tt
          n
  unfolding analyse_blocks_of
  analyse_blocks_of-Foreign before [] is ids foreign = Runs-pure e q tt n
  analyse_blocks_of-Foreign before (b ∷ rest) is ids foreign =
      let one_more : length (before ++ b ∷ []) ≡ length before + 1 =
        length-append before (b ∷ []) in
      let shift : (before ++ b ∷ []) ++ rest ≡ before ++ b ∷ rest =
        append_assoc before (b ∷ []) rest in
      let id = pos (1 + length before) in
      Runs-bind e q _
        (get_transaction_body_where_id-Runs e q n id b
          (ap (numbered id) is ∙ numbered_at 1 _ before b rest ids refl) foreign.0.0)
        (Runs-bind e q _
          (try_decrypt-none e q n my_name b.transaction_body peers foreign.0.0 roster.0 roster.1
            roster.2 foreign.0.1)
          (Runs-bind e q _ (Runs-pure e q tt n) (
            subst
              (λ i.
                Runs e q (analyse_blocks_of e base64_decode my_name user clock (length rest) i) n tt
                  n)
              (ap pos (omega arith) ∙ sym (pos-+ℤ (1 + length before) 1))
              (analyse_blocks_of-Foreign (before ++ b ∷ []) rest (is ∙ sym shift)
                (subst (Ids 1) (sym shift) ids) foreign.1))))

  -- A chain that no key of the node opens is searched for a correspondent's messages, and the node
  -- stays as it was.
  pub analyse_blockchein_for_user_name-Foreign :
      (md5 : Bytes → Bytes)
      → IsChain md5 n.blockchain
      → All (Foreign e q base64_decode my_name clock n peers) n.blockchain
      → Runs e q (analyse_blockchein_for_user_name e base64_decode my_name user clock) n tt n
  unfolding analyse_blockchein_for_user_name
  analyse_blockchein_for_user_name-Foreign md5 h foreign =
      Runs-bind e q _ (how_many_transaction_id-Runs e q n) (
        rw (atoi-to_string (length n.blockchain))
          (analyse_blocks_of-Foreign [] n.blockchain refl (IsChain-Ids md5 _ h) foreign))
