-- ===== src/Server/Accepted.antt =====
-- How a node takes in an announced block (bcm-linux-console/Cpp_part.cpp,
-- send_message_server_part_function_i2pd), whatever its analysis finds in it.
use blockchain_crypto_messan.Common.{
  ℕ, ◌+◌, ◌<◌, ◌≡◌, refl, ap, subst, false, List, [], ◌∷◌, ◌++◌, length, text_eq,
}
use blockchain_crypto_messan.Common.Int.{ℤ, pos}
use blockchain_crypto_messan.Text.{Bytes, NoNul, c_str-eq}
use blockchain_crypto_messan.Text.Decimal.{to_string, atoi-to_string}
use blockchain_crypto_messan.Sql.{BlockRow}
use blockchain_crypto_messan.Sql.Engine.{Engine, IsSqlite, Node, Runs, Runs-pure, Runs-bind}
use blockchain_crypto_messan.Keys.{buf_size}
use blockchain_crypto_messan.Keys.Encrypt.{pos-+ℤ}
use blockchain_crypto_messan.Chain.{get_how_much_id, get_hash_id_container}
use blockchain_crypto_messan.Analysis.{analyse_blockchain_for_input_messages}
use blockchain_crypto_messan.Chain.Links.{
  IsChain, last_hash, next_block, last_hash-NoNul, last_hash-IsField, get_hash_from_string-NoNul,
}
use blockchain_crypto_messan.Chain.Import.{
  with_blocks, get_how_much_id-Runs, add_record_to_local_blockchain-Runs,
  check_clear_blockchain-below,
}
use blockchain_crypto_messan.Server.{accept_announced, answer_announcement}
use blockchain_crypto_messan.Server.Parsing.{read_announcement-text}
use blockchain_crypto_messan.Server.Agreement.{
  stored_hash-last, next_text, next_text-NoNul, stored_hash-Runs, agrees-next,
}

-- The chain with the announced message.
abbrev pub grown_chain : (Bytes → Bytes) → BlockRow → List BlockRow → Bytes → List BlockRow
grown_chain md5 b bs message = (b ∷ bs) ++ next_block md5 (b ∷ bs) message ∷ []

module _ (e : Engine) (q : IsSqlite e) where
  module _ (md5 base64_decode : Bytes → Bytes) (limit : ℕ) (my_name : Bytes)
      (clock : ℤ → Bytes) where
    accept_announced-Runs :
        (n m : Node) (b : BlockRow) (bs : List BlockRow) (message : Bytes)
        → n.blockchain ≡ b ∷ bs
        → IsChain md5 (b ∷ bs)
        → NoNul message
        → Runs e q
            (analyse_blockchain_for_input_messages e base64_decode my_name clock)
            (with_blocks n (grown_chain md5 b bs message))
            tt
            m
        → length m.blockchain < limit
        → Runs e q
            (accept_announced e md5 (pos limit) base64_decode my_name clock false message)
            n
            tt
            m
    unfolding accept_announced
    accept_announced-Runs n m b bs message is h clean analysed room =
        let new = next_block md5 (b ∷ bs) message in
        let counted : Runs e q (get_how_much_id e) n (to_string (pos (length (b ∷ bs)))) n =
          subst (λ k. Runs e q (get_how_much_id e) n (to_string (pos k)) n) (ap length is)
            (get_how_much_id-Runs e q n) in
        let found : Runs e q (get_hash_id_container e (to_string (pos (length (b ∷ bs))))) n
            (last_hash b.transaction_hash bs) n =
          subst (λ r. Runs e q (get_hash_id_container e (to_string (pos (length (b ∷ bs))))) n r n)
            (stored_hash-last md5 n b bs is h) (stored_hash-Runs e q n (length (b ∷ bs))) in
        Runs-bind e q _ counted (
          Runs-bind e q _ found (
            rw (atoi-to_string (length (b ∷ bs)), pos-+ℤ (length (b ∷ bs)) 1)
              (Runs-bind e q _
                (add_record_to_local_blockchain-Runs e q n (b ∷ bs) new is clean
                  (last_hash-NoNul md5 b bs h) (get_hash_from_string-NoNul md5 _) refl)
                (Runs-bind e q _ analysed (check_clear_blockchain-below e q m limit room)))))

    -- An announcement of the next block from another node is answered by its own text, and leaves the
    -- node as the analysis of the chain with that block does.
    pub answer_announcement-analysed :
        (n m : Node) (b : BlockRow) (bs : List BlockRow) (message another_dest my_public : Bytes)
        → n.blockchain ≡ b ∷ bs
        → IsChain md5 (b ∷ bs)
        → NoNul message
        → Runs e q
            (analyse_blockchain_for_input_messages e base64_decode my_name clock)
            (with_blocks n (grown_chain md5 b bs message))
            tt
            m
        → length m.blockchain < limit
        → text_eq another_dest my_public ≡ false
        → length (to_string (pos (length (b ∷ bs) + 1)))
            + length (last_hash b.transaction_hash bs)
            + 1
          < buf_size
        → Runs e q
            (answer_announcement e md5
              (pos limit)
              base64_decode
              my_name
              clock
              another_dest
              my_public
              (next_text b bs message))
            n
            (next_text b bs message)
            m
    unfolding answer_announcement
    answer_announcement-analysed n m b bs message another_dest my_public is h clean analysed room
          other fits =
        let field = last_hash-IsField md5 b bs h in
        rw
          (read_announcement-text (length (b ∷ bs) + 1) (last_hash b.transaction_hash bs) message
            field clean fits)
          (Runs-bind e q _ (Runs-pure e q _ _) (
            Runs-bind e q _ (agrees-next e q md5 n message b bs is h) (
              rw other (
                Runs-bind e q _ (accept_announced-Runs n m b bs message is h clean analysed room) (
                  rw (c_str-eq (next_text b bs message) (next_text-NoNul b bs message field clean))
                    (Runs-pure e q _ _))))))
