-- ===== src/Chain/Import.antt =====
-- What adding a transaction, and a whole file of them, does to the chain of a node.
use blockchain_crypto_messan.Common.{
  ℕ, suc, ◌+◌, ◌<◌, ◌≡◌, refl, subst, true, false, List, [], ◌∷◌, ◌++◌, length, length-append,
  arith,
}
use blockchain_crypto_messan.Common.Int.{pos, leb_ℤ}
use blockchain_crypto_messan.Text.{Bytes, NoNul, c_str-eq}
use blockchain_crypto_messan.Text.Decimal.{to_string, atoi-to_string}
use blockchain_crypto_messan.Sql.{
  BlockRow, query, apply, same_int, numbered, count_blockchain, select_transaction_hash,
  insert_block,
}
use blockchain_crypto_messan.Sql.Engine.{
  Engine, IsSqlite, Node, Runs, Runs-pure, Runs-bind, sql_or_exit-Runs, run_sql-Runs,
}
use blockchain_crypto_messan.Keys.Laws.{argv-number}
use blockchain_crypto_messan.Keys.Encrypt.{pos-+ℤ}
use blockchain_crypto_messan.Chain.{
  get_how_much_id, how_many_transaction_id, get_hash_id_container, add_record_to_local_blockchain,
  check_clear_blockchain, add_transaction,
}
use blockchain_crypto_messan.Chain.Links.{
  IsChain, next_block, last_hash, first_block, last_hash-NoNul, numbered-IsChain,
  get_hash_from_string-NoNul,
}

abbrev pub with_blocks : Node → List BlockRow → Node
with_blocks n bs = record n { tables = record n.tables { blockchain = bs } }

module _ (e : Engine) (q : IsSqlite e) where
  -- The text of the number of blocks.
  pub get_how_much_id-Runs :
      (n : Node) → Runs e q (get_how_much_id e) n (to_string (pos (length n.blockchain))) n
  unfolding get_how_much_id query apply
  get_how_much_id-Runs n =
      Runs-bind e q _ (sql_or_exit-Runs e q count_blockchain n tt)
        (rw (argv-number (length n.blockchain)) (Runs-pure e q _ _))

  pub how_many_transaction_id-Runs :
      (n : Node) → Runs e q (how_many_transaction_id e) n (to_string (pos (length n.blockchain))) n
  unfolding how_many_transaction_id query apply
  how_many_transaction_id-Runs n =
      Runs-bind e q _ (sql_or_exit-Runs e q count_blockchain n tt)
        (rw (argv-number (length n.blockchain)) (Runs-pure e q _ _))

  -- Below the limit the check does nothing.
  pub check_clear_blockchain-below :
      (n : Node) (limit : ℕ)
      → length n.blockchain < limit
      → Runs e q (check_clear_blockchain e (pos limit)) n tt n
  unfolding check_clear_blockchain
  check_clear_blockchain-below n limit h =
      let below : leb_ℤ (pos limit) (pos (length n.blockchain)) ≡ false = ground arith in
      Runs-bind e q _ (get_how_much_id-Runs n)
        (rw (atoi-to_string (length n.blockchain), below) (Runs-pure e q _ _))

  pub add_record_to_local_blockchain-Runs :
      (n : Node) (bs : List BlockRow) (b : BlockRow)
      → n.blockchain ≡ bs
      → NoNul b.transaction_body
      → NoNul b.before_transaction_hash
      → NoNul b.transaction_hash
      → b.transaction_size ≡ pos (length b.transaction_body)
      → Runs e q
          (add_record_to_local_blockchain e b.transaction_id b.transaction_body
            b.before_transaction_hash b.transaction_hash)
          n
          true
          (with_blocks n (bs ++ b ∷ []))
  unfolding add_record_to_local_blockchain apply
  add_record_to_local_blockchain-Runs n bs b is body before this size =
      subst
        (λ r.
          Runs e q
            (add_record_to_local_blockchain e b.transaction_id b.transaction_body
              b.before_transaction_hash b.transaction_hash)
            n true (with_blocks n (r ++ b ∷ [])))
        is
        (rw (c_str-eq _ body, c_str-eq _ before, c_str-eq _ this, ← size)
          (Runs-bind e q _ (run_sql-Runs e q (insert_block b) n (body, before, this))
            (Runs-pure e q _ _)))

  module _ (md5 : Bytes → Bytes) where
    -- The hash of the last block.
    pub get_hash_id_container-Runs :
        (n : Node) (b : BlockRow) (bs : List BlockRow)
        → n.blockchain ≡ b ∷ bs
        → IsChain md5 (b ∷ bs)
        → Runs e q
            (get_hash_id_container e (to_string (pos (length (b ∷ bs)))))
            n
            (last_hash b.transaction_hash bs)
            n
    unfolding get_hash_id_container query apply
    get_hash_id_container-Runs n b bs is h = rw (atoi-to_string (length (b ∷ bs))) (
        Runs-bind e q _
          (sql_or_exit-Runs e q (select_transaction_hash (pos (length (b ∷ bs)))) n tt)
          (rw (is, numbered-IsChain md5 b bs h, c_str-eq _ (last_hash-NoNul md5 b bs h))
            (Runs-pure e q _ _)))

    get_hash_id_container-empty :
        (n : Node)
        → n.blockchain ≡ []
        → Runs e q (get_hash_id_container e (to_string (pos 0))) n [] n
    unfolding get_hash_id_container query apply numbered
    get_hash_id_container-empty n is = rw (atoi-to_string 0) (
        Runs-bind e q _ (sql_or_exit-Runs e q (select_transaction_hash (pos 0)) n tt)
          (rw is (Runs-pure e q _ _)))

    -- The transaction is appended as the next block, before the limit is checked.
    pub add_transaction-appends :
        (n n' : Node) (limit : ℕ) (bs : List BlockRow) (body : Bytes)
        → n.blockchain ≡ bs
        → IsChain md5 bs
        → NoNul body
        → Runs e q
            (check_clear_blockchain e (pos limit))
            (with_blocks n (bs ++ next_block md5 bs body ∷ []))
            tt
            n'
        → Runs e q (add_transaction e md5 (pos limit) (pos (length bs)) body) n tt n'
    unfolding add_transaction
    add_transaction-appends n n' limit [] body is h clean check =
        Runs-bind e q _ (get_hash_id_container-empty n is) (
          rw (pos-+ℤ 0 1) (
            Runs-bind e q _
              (add_record_to_local_blockchain-Runs n [] (first_block md5 body) is clean
                (omega arith) (omega arith) refl)
              check))
    add_transaction-appends n n' limit (b ∷ bs) body is h clean check =
        let later : same_int (pos (suc (length bs) + 1)) (pos 1) ≡ false = ground arith in
        Runs-bind e q _ (get_hash_id_container-Runs n b bs is h) (
          rw (pos-+ℤ (suc (length bs)) 1, later)
            (Runs-bind e q _
              (add_record_to_local_blockchain-Runs n (b ∷ bs) (next_block md5 (b ∷ bs) body) is
                clean (last_hash-NoNul md5 b bs h) (get_hash_from_string-NoNul md5 _) refl)
              check))

    -- Below the limit that is all.
    pub add_transaction-Runs :
        (n : Node) (limit : ℕ) (bs : List BlockRow) (body : Bytes)
        → n.blockchain ≡ bs
        → IsChain md5 bs
        → NoNul body
        → length bs + 1 < limit
        → Runs e q
            (add_transaction e md5 (pos limit) (pos (length bs)) body)
            n
            tt
            (with_blocks n (bs ++ next_block md5 bs body ∷ []))
    add_transaction-Runs n limit bs body is h clean room =
        add_transaction-appends n _ limit bs body is h clean (
          check_clear_blockchain-below _ limit
            (omega (arith, length-append bs (next_block md5 bs body ∷ []))))
