-- ===== src/Analysis/Cursor.antt =====
-- The cursor LAST_ANALYSED_ID over blocks that no key of the node opens
-- (bcm-linux-console/Cpp_part.cpp, analyse_blockchain_for_input_messages).
use blockchain_crypto_messan.Common.{
  suc, ◌+◌, ◌≡◌, refl, sym, ap, subst, subst₂, ◌∙◌, List, [], ◌∷◌, ◌++◌, length, arith, All,
  length-append, append_assoc,
}
use blockchain_crypto_messan.Common.Int.{ℤ, pos, ◌-ℤ◌, pos_part}
use blockchain_crypto_messan.Text.{Bytes, NoNul}
use blockchain_crypto_messan.Text.Decimal.{atoi-to_string}
use blockchain_crypto_messan.Sql.{BlockRow, numbered}
use blockchain_crypto_messan.Sql.Engine.{Engine, IsSqlite, Node, Runs, Runs-pure, Runs-bind}
use blockchain_crypto_messan.Program.{pure}
use blockchain_crypto_messan.Keys.Encrypt.{pos-+ℤ}
use blockchain_crypto_messan.Decrypt.Roster.{Peer, PassedOver, try_decrypt-none}
use blockchain_crypto_messan.Chain.Links.{IsChain, Ids, IsChain-Ids}
use blockchain_crypto_messan.Chain.Import.{how_many_transaction_id-Runs}
use blockchain_crypto_messan.Analysis.{
  analyse_block, analyse_blocks, analyse_blockchain_for_input_messages,
}
use blockchain_crypto_messan.Analysis.Wrappers.{
  numbered_at, rounds_left, with_cursor, get_transaction_body_where_id-Runs,
  set_last_analysed_id_in_blockchain-Runs, set_last_available_id_in_blockchain-Runs,
  get_last_analysed_id_in_blockchain-Runs, Roster, Known-cursor,
}

module _ (e : Engine) (q : IsSqlite e) where
  module _ (base64_decode : Bytes → Bytes) (my_name : Bytes) (clock : ℤ → Bytes) where
    -- A body that no key of the peers opens.
    abbrev pub Foreign : Node → List Peer → BlockRow → Type 0
    Foreign n peers b = NoNul b.transaction_body × PassedOver e q n my_name b.transaction_body peers

    analyse_block-Foreign :
        (n : Node) (peers : List Peer) (id : ℤ) (b : BlockRow)
        → Roster e q n peers
        → numbered id n.blockchain ≡ b ∷ []
        → Foreign n peers b
        → Runs e q (analyse_block e base64_decode my_name clock id) n tt (with_cursor n id)
    unfolding analyse_block
    analyse_block-Foreign n peers id b roster there foreign =
        Runs-bind e q _ (get_transaction_body_where_id-Runs e q n id b there foreign.0) (
          Runs-bind e q _
            (try_decrypt-none e q n my_name b.transaction_body peers foreign.0 roster.0 roster.1
              roster.2 foreign.1)
            (Runs-bind e q _ (Runs-pure e q _ _) (
              Runs-bind e q _ (set_last_analysed_id_in_blockchain-Runs e q n id)
                (set_last_available_id_in_blockchain-Runs e q _ id))))

    -- The rounds for the blocks behind `before`.
    analyse_blocks-Foreign :
        (n : Node) (peers : List Peer) (before : List BlockRow) (b : BlockRow)
        (rest : List BlockRow)
        → n.blockchain ≡ before ++ b ∷ rest
        → Ids 1 (before ++ b ∷ rest)
        → Roster e q n peers
        → All (Foreign n peers) (b ∷ rest)
        → Runs e q
            (analyse_blocks e base64_decode my_name clock
              (suc (length rest))
              (pos (1 + length before)))
            n
            tt
            (with_cursor n (pos (1 + length before + length rest)))
    unfolding analyse_blocks
    analyse_blocks-Foreign n peers before b [] is ids roster foreign =
        Runs-bind e q _
          (analyse_block-Foreign n peers _ b roster
            (ap (numbered _) is ∙ numbered_at 1 _ before b [] ids refl) foreign.0)
          (subst
            (λ k.
              Runs e q (pure tt) (with_cursor n (pos (1 + length before))) tt
                (with_cursor n (pos k)))
            (omega arith) (Runs-pure e q _ _))
    analyse_blocks-Foreign n peers before b (c ∷ rest) is ids roster foreign =
        let one_more : length (before ++ b ∷ []) ≡ length before + 1 =
          length-append before (b ∷ []) in
        let shift : (before ++ b ∷ []) ++ c ∷ rest ≡ before ++ b ∷ c ∷ rest =
          append_assoc before (b ∷ []) (c ∷ rest) in
        let id = pos (1 + length before) in
        Runs-bind e q _
          (analyse_block-Foreign n peers id b roster
            (ap (numbered id) is ∙ numbered_at 1 _ before b (c ∷ rest) ids refl) foreign.0)
          (subst₂
            (λ i k.
              Runs e q (analyse_blocks e base64_decode my_name clock (suc (length rest)) i)
                (with_cursor n id) tt (with_cursor n (pos k)))
            (ap pos (omega arith) ∙ sym (pos-+ℤ (1 + length before) 1)) (omega arith)
            (analyse_blocks-Foreign (with_cursor n id) peers (before ++ b ∷ []) c rest
              (is ∙ sym shift) (subst (Ids 1) (sym shift) ids)
              (roster.0, roster.1, Known-cursor e q n id peers roster.2) foreign.1))

    -- Blocks behind the cursor that no key of the node opens are all looked at, once, and nothing but
    -- the cursor of the node changes: it ends at the last block.
    pub analyse_blockchain-passes :
        (md5 : Bytes → Bytes) (n : Node) (peers : List Peer) (before : List BlockRow) (b : BlockRow)
        (rest : List BlockRow)
        → n.blockchain ≡ before ++ b ∷ rest
        → IsChain md5 (before ++ b ∷ rest)
        → n.last_analysed_id ≡ pos (length before)
        → Roster e q n peers
        → All (Foreign n peers) (b ∷ rest)
        → Runs e q
            (analyse_blockchain_for_input_messages e base64_decode my_name clock)
            n
            tt
            (with_cursor n (pos (length (before ++ b ∷ rest))))
    unfolding analyse_blockchain_for_input_messages
    analyse_blockchain-passes md5 n peers before b rest is h cursor roster foreign =
        let size : length (before ++ b ∷ rest) ≡ length before + suc (length rest) =
          length-append before (b ∷ rest) in
        let rounds : pos_part (pos (length n.blockchain) -ℤ pos (length before))
            ≡ suc (length rest) =
          rounds_left _ _ _ (ap length is ∙ size) in
        Runs-bind e q _ (get_last_analysed_id_in_blockchain-Runs e q n (length before) cursor) (
          Runs-bind e q _ (how_many_transaction_id-Runs e q n) (
            rw
              (
                atoi-to_string (length before),
                atoi-to_string (length n.blockchain),
                rounds,
                pos-+ℤ,
                size,
              )
              (subst₂
                (λ i k.
                  Runs e q (analyse_blocks e base64_decode my_name clock (suc (length rest)) i) n tt
                    (with_cursor n (pos k)))
                (ap pos (omega arith)) (omega arith)
                (analyse_blocks-Foreign n peers before b rest is (IsChain-Ids md5 _ h) roster
                  foreign))))
