-- ===== src/Chain/Restart.antt =====
-- What happens when the chain reaches the limit: the table is emptied, the agreed first block is
-- put in, and every key is used from its start again.
use blockchain_crypto_messan.Common.{
  ℕ, ◌+◌, ◌≤◌, ◌<◌, ◌≡◌, refl, true, List, [], ◌∷◌, map, length, ltb, arith, All, length-append,
  length-map, Bool-cases, inl, inr, ltb→lt, ltb→ge,
}
use blockchain_crypto_messan.Common.Int.{pos, leb_ℤ}
use blockchain_crypto_messan.Text.{Bytes, NoNul}
use blockchain_crypto_messan.Text.Decimal.{atoi-to_string}
use blockchain_crypto_messan.Sql.{
  UserRow, BlockRow, apply, IsPlain, delete_blockchain, update_last_analysed_id,
  update_last_available_id,
}
use blockchain_crypto_messan.Sql.Engine.{
  Engine, IsSqlite, Node, Runs, Runs-pure, Runs-bind, sql_or_exit-Runs, run_sql-Runs,
}
use blockchain_crypto_messan.Chain.{
  default_hesh_before, default_this_hash, encrypt_message_default, clear_blockchain_table,
  set_last_analysed_id_in_blockchain, set_last_available_id_in_blockchain, restart_blockchain,
  check_clear_blockchain, add_transaction,
}
use blockchain_crypto_messan.Chain.Links.{IsChain, next_block, next_block-IsChain}
use blockchain_crypto_messan.Chain.Import.{
  with_blocks, get_how_much_id-Runs, add_record_to_local_blockchain-Runs, add_transaction-appends,
  add_transaction-Runs,
}
use blockchain_crypto_messan.Chain.Rewind.{rewound, Listed, key_seek_zero_for_all_users-Runs}

abbrev pub genesis : BlockRow
genesis = record {
  transaction_id = pos 1;
  transaction_body = encrypt_message_default;
  transaction_size = pos 24;
  before_transaction_hash = default_hesh_before;
  transaction_hash = default_this_hash;
}

-- The node after a restart.
abbrev pub restarted : Node → Node
restarted n = record n {
  tables = record n.tables {
    blockchain = genesis ∷ [];
    last_analysed_id = pos 1;
    last_available_id = pos 1;
    general = map rewound n.general;
  };
}

module _ (md5 : Bytes → Bytes) where
  -- What holds of a node at rest: a chain below the limit, and correspondents that can be listed.
  abbrev pub AtRest : ℕ → Node → Type 0
  AtRest limit n = IsChain md5 n.blockchain × (length n.blockchain < limit) × Listed n.general

  Listed-rewound :
      (rows : List UserRow)
      → All (λ r. IsPlain r.user_name) rows
      → All (λ r. IsPlain r.user_name) (map rewound rows)
  Listed-rewound [] h = tt
  Listed-rewound (r ∷ rows) h = (h.0, Listed-rewound rows h.1)

  restarted-AtRest :
      (limit : ℕ) (n : Node) → 1 < limit → Listed n.general → AtRest limit (restarted n)
  restarted-AtRest limit n l h = (
    (omega arith, refl, tt),
    l,
    (Listed-rewound n.general h.0, omega (arith, h.1, length-map rewound n.general)),
  )

module _ (e : Engine) (q : IsSqlite e) where
  -- A restart leaves the agreed first block alone in the chain, both numbers of CONFIG_TABLE at 1,
  -- and the key of every correspondent at its start.
  pub restart_blockchain-Runs :
      (n : Node) → Listed n.general → Runs e q (restart_blockchain e) n tt (restarted n)
  unfolding restart_blockchain clear_blockchain_table set_last_analysed_id_in_blockchain
      set_last_available_id_in_blockchain apply
  restart_blockchain-Runs n h =
      Runs-bind e q _
        (Runs-bind e q _ (run_sql-Runs e q delete_blockchain n tt) (Runs-pure e q _ _))
        (Runs-bind e q _
          (add_record_to_local_blockchain-Runs e q (with_blocks n []) [] genesis refl (omega arith)
            (omega arith) (omega arith) refl)
          (Runs-bind e q _
            (Runs-bind e q _ (sql_or_exit-Runs e q (update_last_analysed_id (pos 1)) _ tt)
              (Runs-pure e q _ _))
            (Runs-bind e q _
              (Runs-bind e q _ (sql_or_exit-Runs e q (update_last_available_id (pos 1)) _ tt)
                (Runs-pure e q _ _))
              (key_seek_zero_for_all_users-Runs e q _ h))))

  check_clear_blockchain-full :
      (n : Node) (limit : ℕ)
      → Listed n.general
      → limit ≤ length n.blockchain
      → Runs e q (check_clear_blockchain e (pos limit)) n tt (restarted n)
  unfolding check_clear_blockchain
  check_clear_blockchain-full n limit h full =
      let reached : leb_ℤ (pos limit) (pos (length n.blockchain)) ≡ true = ground arith in
      Runs-bind e q _ (get_how_much_id-Runs e q n)
        (rw (atoi-to_string (length n.blockchain), reached) (restart_blockchain-Runs n h))

  module _ (md5 : Bytes → Bytes) where
    -- At the limit the transaction that fills the chain is dropped with it, and the node restarts.
    pub add_transaction-restarts :
        (n : Node) (limit : ℕ) (bs : List BlockRow) (body : Bytes)
        → n.blockchain ≡ bs
        → IsChain md5 bs
        → NoNul body
        → Listed n.general
        → limit ≤ length bs + 1
        → Runs e q (add_transaction e md5 (pos limit) (pos (length bs)) body) n tt (restarted n)
    add_transaction-restarts n limit bs body is h clean listed full =
        add_transaction-appends e q md5 n _ limit bs body is h clean (
          check_clear_blockchain-full _ limit listed
            (omega (arith, length-append bs (next_block md5 bs body ∷ []))))

    -- Adding a transaction without NUL to a node at rest, with a limit above 1, returns on either side
    -- of the limit, and leaves a node at rest: a chain shorter than the limit whose blocks are numbered
    -- from 1 and linked by their hashes.
    pub add_transaction-AtRest :
        (n : Node) (limit : ℕ) (body : Bytes)
        → 1 < limit
        → AtRest md5 limit n
        → NoNul body
        → (n' : Node) × Runs e q
            (add_transaction e md5 (pos limit) (pos (length n.blockchain)) body)
            n
            tt
            n'
          × AtRest md5 limit n'
    add_transaction-AtRest n limit body l rest clean =
        elim (Bool-cases (ltb (length n.blockchain + 1) limit)) [
          | inl below ↦ (
            _,
            add_transaction-Runs e q md5 n limit n.blockchain body refl rest.0 clean
                (ltb→lt _ _ below),
            (
              next_block-IsChain md5 n.blockchain body rest.0 clean,
              omega (
                arith,
                ltb→lt _ _ below,
                length-append n.blockchain (next_block md5 n.blockchain body ∷ []),
              ),
              rest.2,
            ),
          )
          | inr full ↦ (
            restarted n,
            add_transaction-restarts n limit n.blockchain body refl rest.0 clean rest.2
                (ltb→ge _ _ full),
            restarted-AtRest md5 limit n l rest.2,
          )
        ]
