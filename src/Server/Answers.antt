-- ===== src/Server/Answers.antt =====
-- The answers of a node (bcm-linux-console/Cpp_part.cpp, send_message_server_part_function_i2pd),
-- and what becomes of the transaction.
use blockchain_crypto_messan.Common.{
  ℕ, ◌+◌, ◌<◌, ◌≡◌, refl, ap, subst, false, List, [], ◌∷◌, ◌++◌, ◌&&◌, length, arith, length-append,
  text_eq, text_eq_refl,
}
use blockchain_crypto_messan.Common.Int.{ℤ, pos, ◌-ℤ◌}
use blockchain_crypto_messan.Text.{Bytes, NoNul, c_str-eq}
use blockchain_crypto_messan.Text.Decimal.{to_string}
use blockchain_crypto_messan.Transaction.RoundTrip.{IsField}
use blockchain_crypto_messan.Sql.{BlockRow, same_int}
use blockchain_crypto_messan.Sql.Engine.{Engine, IsSqlite, Node, Runs, Runs-pure, Runs-bind}
use blockchain_crypto_messan.Keys.{buf_size}
use blockchain_crypto_messan.Keys.Laws.{Contact}
use blockchain_crypto_messan.Decrypt.Roster.{Peer, Known}
use blockchain_crypto_messan.Chain.{get_how_much_id}
use blockchain_crypto_messan.Analysis.{analyse_blockchain_for_input_messages}
use blockchain_crypto_messan.Chain.Links.{
  IsChain, last_hash, next_block, next_block-IsChain, last_hash-IsField,
}
use blockchain_crypto_messan.Chain.Import.{with_blocks, get_how_much_id-Runs}
use blockchain_crypto_messan.Analysis.Wrappers.{with_cursor, Roster}
use blockchain_crypto_messan.Analysis.Cursor.{Foreign, analyse_blockchain-passes}
use blockchain_crypto_messan.Server.{accept_announced, answer_announcement}
use blockchain_crypto_messan.Server.Parsing.{announcement_text, read_announcement-text}
use blockchain_crypto_messan.Server.Agreement.{
  next_text, next_text-NoNul, stored_hash-Runs, agrees-refuses, agrees-next,
}
use blockchain_crypto_messan.Server.Accepted.{grown_chain, answer_announcement-analysed}

Contact-with_blocks :
    {n : Node} {user key : Bytes} {seek : ℕ} (bs : List BlockRow)
    → Contact n user key seek
    → Contact (with_blocks n bs) user key seek
Contact-with_blocks bs c = record {
  new_message = c.new_message;
  plain = c.plain;
  row = c.row;
  key_NoNul = c.key_NoNul;
  key_fits = c.key_fits;
}

module _ (e : Engine) (q : IsSqlite e) where
  pub Known-with_blocks :
      (n : Node) (bs : List BlockRow) (peers : List Peer)
      → Known e q n peers
      → Known e q (with_blocks n bs) peers
  Known-with_blocks n bs [] h = tt
  Known-with_blocks n bs (x ∷ peers) h =
      (Contact-with_blocks bs h.0, Known-with_blocks n bs peers h.1)

  module _ (md5 base64_decode : Bytes → Bytes) (limit : ℕ) (my_name : Bytes)
      (clock : ℤ → Bytes) where
    -- An announcement of the next block from another node, whose message no key of this node opens,
    -- to a node that has analysed its chain and stays below the limit, is answered by its own text; the
    -- block is appended with its hash, and the cursor is on it.
    pub answer_announcement-accepts :
        (n : Node) (peers : List Peer) (b : BlockRow) (bs : List BlockRow)
        (message another_dest my_public : Bytes)
        → n.blockchain ≡ b ∷ bs
        → IsChain md5 (b ∷ bs)
        → n.last_analysed_id ≡ pos (length (b ∷ bs))
        → Roster e q n peers
        → Foreign e q base64_decode my_name clock n peers (next_block md5 (b ∷ bs) message)
        → length (b ∷ bs) + 1 < limit
        → text_eq another_dest my_public ≡ false
        → length (to_string (pos (length (b ∷ bs) + 1)))
            + length (last_hash b.transaction_hash bs)
            + 1
          < buf_size
        → Runs e q
            (answer_announcement e md5
              (pos limit)
              base64_decode
              my_name
              clock
              another_dest
              my_public
              (next_text b bs message))
            n
            (next_text b bs message)
            (with_cursor
              (with_blocks n ((b ∷ bs) ++ next_block md5 (b ∷ bs) message ∷ []))
              (pos (length (b ∷ bs) + 1)))
    answer_announcement-accepts n peers b bs message another_dest my_public is h cursor roster
          foreign room other fits =
        let new = next_block md5 (b ∷ bs) message in
        let chain = grown_chain md5 b bs message in
        let size : length chain ≡ length (b ∷ bs) + 1 = length-append (b ∷ bs) (new ∷ []) in
        let analysed : Runs e q
            (analyse_blockchain_for_input_messages e base64_decode my_name clock)
            (with_blocks n chain) tt
            (with_cursor (with_blocks n chain) (pos (length (b ∷ bs) + 1))) =
          subst
            (λ k.
              Runs e q (analyse_blockchain_for_input_messages e base64_decode my_name clock)
                (with_blocks n chain) tt (with_cursor (with_blocks n chain) (pos k)))
            size
            (analyse_blockchain-passes e q base64_decode my_name clock md5 (with_blocks n chain)
              peers (b ∷ bs) new [] refl (next_block-IsChain md5 (b ∷ bs) message h foreign.0)
              cursor (roster.0, roster.1, Known-with_blocks n chain peers roster.2)
              (foreign, tt)) in
        answer_announcement-analysed e q md5 base64_decode limit my_name clock n _ b bs message
          another_dest my_public is h foreign.0 analysed (omega (arith, size)) other fits

    -- An announcement of the next block by the node itself is answered by its own text, and the node
    -- stays as it was.
    pub answer_announcement-own :
        (n : Node) (b : BlockRow) (bs : List BlockRow) (message my_public : Bytes)
        → n.blockchain ≡ b ∷ bs
        → IsChain md5 (b ∷ bs)
        → NoNul message
        → length (to_string (pos (length (b ∷ bs) + 1)))
            + length (last_hash b.transaction_hash bs)
            + 1
          < buf_size
        → Runs e q
            (answer_announcement e md5
              (pos limit)
              base64_decode
              my_name
              clock
              my_public
              my_public
              (next_text b bs message))
            n
            (next_text b bs message)
            n
    unfolding answer_announcement accept_announced
    answer_announcement-own n b bs message my_public is h clean fits =
        let field = last_hash-IsField md5 b bs h in
        let counted : Runs e q (get_how_much_id e) n (to_string (pos (length (b ∷ bs)))) n =
          subst (λ k. Runs e q (get_how_much_id e) n (to_string (pos k)) n) (ap length is)
            (get_how_much_id-Runs e q n) in
        rw
          (read_announcement-text (length (b ∷ bs) + 1) (last_hash b.transaction_hash bs) message
            field clean fits)
          (Runs-bind e q _ (Runs-pure e q _ _) (
            Runs-bind e q _ (agrees-next e q md5 n message b bs is h) (
              rw (text_eq_refl my_public) (
                Runs-bind e q _
                  (Runs-bind e q _ counted (
                    Runs-bind e q _ (stored_hash-Runs e q n (length (b ∷ bs))) (Runs-pure e q _ _)))
                  (rw (c_str-eq (next_text b bs message) (next_text-NoNul b bs message field clean))
                    (Runs-pure e q _ _))))))

    -- An announcement with another number or hash is answered by "NO", and the node stays as it was.
    pub answer_announcement-refuses :
        (n : Node) (b c : BlockRow) (bs : List BlockRow) (id : ℕ)
        (hash message another_dest my_public : Bytes)
        → n.blockchain ≡ b ∷ c ∷ bs
        → IsChain md5 (b ∷ c ∷ bs)
        → (same_int (pos id -ℤ pos 1) (pos (length (b ∷ c ∷ bs)))
            && text_eq hash (last_hash b.transaction_hash (c ∷ bs)))
          ≡ false
        → IsField hash
        → NoNul message
        → length (to_string (pos id)) + length hash + 1 < buf_size
        → Runs e q
            (answer_announcement e md5
              (pos limit)
              base64_decode
              my_name
              clock
              another_dest
              my_public
              (announcement_text (to_string (pos id)) hash message))
            n
            (78 ∷ 79 ∷ [])
            n
    unfolding answer_announcement
    answer_announcement-refuses n b c bs id hash message another_dest my_public is h other field
          clean fits =
        rw (read_announcement-text id hash message field clean fits) (
          Runs-bind e q _ (Runs-pure e q _ _) (
            Runs-bind e q _
              (agrees-refuses e q md5 n
                (record { id = pos id; hash_of_before_id = hash; encrypt_message_part = message }) b
                c bs is h other)
              (Runs-pure e q _ _)))
