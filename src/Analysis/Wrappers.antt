-- ===== src/Analysis/Wrappers.antt =====
-- The wrappers that the analysis calls (bcm-linux-console/Cpp_part.cpp): the body of a block, the
-- numbers of CONFIG_TABLE, and the list of the correspondents.
use blockchain_crypto_messan.Common.{
  ℕ, suc, ◌+◌, ◌≤◌, ◌<◌, ◌≡◌, refl, true, false, List, [], ◌∷◌, ◌++◌, map, length, arith,
}
use blockchain_crypto_messan.Common.Int.{ℤ, pos, ◌-ℤ◌, pos_part}
use blockchain_crypto_messan.Text.{Bytes, NoNul, c_str-eq}
use blockchain_crypto_messan.Text.Decimal.{to_string}
use blockchain_crypto_messan.Sql.{
  BlockRow, query, apply, numbered, same_int, select_transaction_body, select_last_analysed_id,
  update_last_analysed_id, update_last_available_id,
}
use blockchain_crypto_messan.Sql.Engine.{
  Engine, IsSqlite, Node, Runs, Runs-pure, Runs-bind, sql_or_exit-Runs,
}
use blockchain_crypto_messan.Keys.Laws.{Contact, argv-number}
use blockchain_crypto_messan.Decrypt.{max_number_of_users}
use blockchain_crypto_messan.Decrypt.Roster.{Peer, Known}
use blockchain_crypto_messan.Chain.{
  get_transaction_body_where_id, get_last_analysed_id_in_blockchain,
  set_last_analysed_id_in_blockchain, set_last_available_id_in_blockchain,
}
use blockchain_crypto_messan.Chain.Links.{Ids}

pub numbered_before :
    (id k : ℕ) (bs : List BlockRow) → Ids id bs → k < id → numbered (pos k) bs ≡ []
unfolding numbered
numbered_before id k [] h lt = refl
numbered_before id k (b ∷ bs) h lt =
    let other : same_int (pos id) (pos k) ≡ false = ground arith in
    rw (h.0, other) (numbered_before (id + 1) k bs h.1 (omega arith))

-- In a list numbered from `id` on, a number selects the block at its place.
pub numbered_at :
    (id k : ℕ) (before : List BlockRow) (b : BlockRow) (after : List BlockRow)
    → Ids id (before ++ b ∷ after)
    → k ≡ id + length before
    → numbered (pos k) (before ++ b ∷ after) ≡ b ∷ []
unfolding numbered
numbered_at id k [] b after h e =
    let same : same_int (pos id) (pos k) ≡ true = ground arith in
    rw (h.0, same, numbered_before (id + 1) k after h.1 (omega arith))
numbered_at id k (c ∷ before) b after h e =
    let other : same_int (pos id) (pos k) ≡ false = ground arith in
    rw (h.0, other) (numbered_at (id + 1) k before b after h.1 (omega arith))

pub rounds_left : (a k r : ℕ) → a ≡ k + suc r → pos_part (pos a -ℤ pos k) ≡ suc r
unfolding ◌-ℤ◌
rounds_left a k r h = ground arith

-- The node after a block has been marked as analysed.
abbrev pub with_cursor : Node → ℤ → Node
with_cursor n id = record n {
  tables = record n.tables { last_analysed_id = id; last_available_id = id };
}

module _ (e : Engine) (q : IsSqlite e) where
  pub get_transaction_body_where_id-Runs :
      (n : Node) (id : ℤ) (b : BlockRow)
      → numbered id n.blockchain ≡ b ∷ []
      → NoNul b.transaction_body
      → Runs e q (get_transaction_body_where_id e id) n b.transaction_body n
  unfolding get_transaction_body_where_id query apply
  get_transaction_body_where_id-Runs n id b there clean =
      Runs-bind e q _ (sql_or_exit-Runs e q (select_transaction_body id) n tt)
        (rw (there, c_str-eq b.transaction_body clean) (Runs-pure e q _ _))

  pub set_last_analysed_id_in_blockchain-Runs :
      (n : Node) (id : ℤ)
      → Runs e q
          (set_last_analysed_id_in_blockchain e id)
          n
          tt
          (record n { tables = record n.tables { last_analysed_id = id } })
  unfolding set_last_analysed_id_in_blockchain apply
  set_last_analysed_id_in_blockchain-Runs n id =
      Runs-bind e q _ (sql_or_exit-Runs e q (update_last_analysed_id id) n tt) (Runs-pure e q _ _)

  pub set_last_available_id_in_blockchain-Runs :
      (n : Node) (id : ℤ)
      → Runs e q
          (set_last_available_id_in_blockchain e id)
          n
          tt
          (record n { tables = record n.tables { last_available_id = id } })
  unfolding set_last_available_id_in_blockchain apply
  set_last_available_id_in_blockchain-Runs n id =
      Runs-bind e q _ (sql_or_exit-Runs e q (update_last_available_id id) n tt) (Runs-pure e q _ _)

  pub get_last_analysed_id_in_blockchain-Runs :
      (n : Node) (k : ℕ)
      → n.last_analysed_id ≡ pos k
      → Runs e q (get_last_analysed_id_in_blockchain e) n (to_string (pos k)) n
  unfolding get_last_analysed_id_in_blockchain query apply
  get_last_analysed_id_in_blockchain-Runs n k is =
      Runs-bind e q _ (sql_or_exit-Runs e q select_last_analysed_id n tt)
        (rw (is, argv-number k) (Runs-pure e q _ _))

  -- The correspondents of a node, which one list of peers describes.
  abbrev pub Roster : Node → List Peer → Type 0
  Roster n peers =
      (map (λ r. r.user_name) n.general ≡ map (λ y. y.user) peers)
      × (length peers ≤ max_number_of_users)
      × Known e q n peers

  pub Contact-cursor :
      {n : Node} {user key : Bytes} {seek : ℕ} (id : ℤ)
      → Contact n user key seek
      → Contact (with_cursor n id) user key seek
  Contact-cursor id c = record {
    new_message = c.new_message;
    plain = c.plain;
    row = c.row;
    key_NoNul = c.key_NoNul;
    key_fits = c.key_fits;
  }

  pub Known-cursor :
      (n : Node) (id : ℤ) (peers : List Peer)
      → Known e q n peers
      → Known e q (with_cursor n id) peers
  Known-cursor n id [] h = tt
  Known-cursor n id (x ∷ peers) h = (Contact-cursor id h.0, Known-cursor n id peers h.1)
