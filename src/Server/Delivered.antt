-- ===== src/Server/Delivered.antt =====
-- An announced block with a message for this node (bcm-linux-console/Cpp_part.cpp,
-- send_message_server_part_function_i2pd and the analysis that it calls).
use blockchain_crypto_messan.Common.{
  ℕ, ◌+◌, ◌≤◌, ◌<◌, ◌≡◌, false, List, [], ◌∷◌, ◌++◌, arith, length, length-append, get_or, text_eq,
  ◌==◌,
}
use blockchain_crypto_messan.Common.Int.{ℤ, pos, pos_part, ◌-ℤ◌}
use blockchain_crypto_messan.Text.{Bytes, NoNul}
use blockchain_crypto_messan.Text.Decimal.{to_string, atoi-to_string}
use blockchain_crypto_messan.Transaction.{compose, max_transaction_length}
use blockchain_crypto_messan.Transaction.RoundTrip.{IsField}
use blockchain_crypto_messan.Sql.{BlockRow, Accepts, insert_message}
use blockchain_crypto_messan.Sql.Engine.{Engine, IsSqlite, Node, Runs, Runs-pure, Runs-bind}
use blockchain_crypto_messan.Keys.{buf_size}
use blockchain_crypto_messan.Keys.Laws.{with_seek}
use blockchain_crypto_messan.Keys.Encrypt.{pos-+ℤ}
use blockchain_crypto_messan.Decrypt.{decrypted}
use blockchain_crypto_messan.Decrypt.Roster.{Peer, PassedOver, tried}
use blockchain_crypto_messan.Chain.Links.{
  IsChain, IsChain-Ids, last_hash, next_block, next_block-IsChain,
}
use blockchain_crypto_messan.Chain.Import.{with_blocks, how_many_transaction_id-Runs}
use blockchain_crypto_messan.Analysis.{
  analyse_block, analyse_blocks, analyse_blockchain_for_input_messages,
}
use blockchain_crypto_messan.Analysis.Counters.{with_count, with_message, Unread, filed_row}
use blockchain_crypto_messan.Analysis.Wrappers.{
  numbered_at, rounds_left, with_cursor, get_last_analysed_id_in_blockchain-Runs, Roster,
}
use blockchain_crypto_messan.Analysis.Filing.{analyse_block-files}
use blockchain_crypto_messan.Server.{answer_announcement}
use blockchain_crypto_messan.Server.Accepted.{grown_chain, answer_announcement-analysed}
use blockchain_crypto_messan.Server.Agreement.{next_text}
use blockchain_crypto_messan.Server.Answers.{Known-with_blocks}

-- The node that has filed a message from the peer `x`, of which the body of the last block is made.
abbrev pub delivered_node : Node → Peer → Bytes → ℕ → Bytes → Bytes → Bytes → ℕ → ℕ → Node
delivered_node n x me id time message body count last =
    with_cursor
      (with_count
        (with_message (with_seek n x.user (pos (x.seek + length body))) x.user
          (filed_row me (pos id) x.user time message))
        x.user (pos (count + 1)))
      (pos last)

module _ (e : Engine) (q : IsSqlite e) (md5 base64_decode : Bytes → Bytes) (limit : ℕ) (me : Bytes)
    (clock : ℤ → Bytes) where
  -- The analysis of one new block.
  analyse_one :
      (n m : Node) (k : ℕ)
      → n.last_analysed_id ≡ pos k
      → length n.blockchain ≡ k + 1
      → Runs e q (analyse_block e base64_decode me clock (pos (k + 1))) n tt m
      → Runs e q (analyse_blockchain_for_input_messages e base64_decode me clock) n tt m
  unfolding analyse_blockchain_for_input_messages analyse_blocks
  analyse_one n m k cursor size step =
      let rounds : pos_part (pos (length n.blockchain) -ℤ pos k) ≡ 1 =
        rounds_left _ _ 0 (omega arith) in
      Runs-bind e q _ (get_last_analysed_id_in_blockchain-Runs e q n k cursor) (
        Runs-bind e q _ (how_many_transaction_id-Runs e q n) (
          rw (atoi-to_string k, atoi-to_string (length n.blockchain), rounds, pos-+ℤ k 1)
            (Runs-bind e q _ step (Runs-pure e q tt m))))

  -- An announcement of the next block, whose number and hash before fit their buffer, comes from
  -- another node to a node of ten correspondents at most, below the limit, that has analysed its
  -- chain. The first key that does not pass over the block, which has no NUL, opens it to a
  -- message for this node from that key's owner, who is not this node itself and has a table and a
  -- counter; the names, the time and the message have no `;`, no quote and no NUL, the message
  -- does not begin with `$`, and the whole fits MAX_TRANSACTION_LENGTH. Then it is answered by its
  -- own text; the block is appended, the message is in the sender's table and counted as unread,
  -- the offset of the key is behind it, and the cursor is on the new block.
  pub answer_announcement-delivers :
      (n : Node) (before : List Peer) (x : Peer) (after : List Peer) (b : BlockRow)
      (bs : List BlockRow) (body time message another_dest my_public : Bytes) (id count : ℕ)
      → n.blockchain ≡ b ∷ bs
      → IsChain md5 (b ∷ bs)
      → n.last_analysed_id ≡ pos (length (b ∷ bs))
      → Roster e q n (before ++ x ∷ after)
      → NoNul body
      → PassedOver e q n me body before
      → tried e q n me body x ≡ decrypted (compose (pos id) me x.user time message)
      → IsField me
      → IsField x.user
      → IsField time
      → IsField message
      → length (compose (pos id) me x.user time message) ≤ max_transaction_length
      → (get_or message 0 0 == b'$') ≡ false
      → text_eq x.user me ≡ false
      → Accepts (insert_message x.user (filed_row me (pos id) x.user time message)) n.tables
      → Unread n x.user count
      → length (b ∷ bs) + 1 < limit
      → text_eq another_dest my_public ≡ false
      → length (to_string (pos (length (b ∷ bs) + 1)))
          + length (last_hash b.transaction_hash bs)
          + 1
        < buf_size
      → Runs e q
          (answer_announcement e md5
            (pos limit)
            base64_decode
            me
            clock
            another_dest
            my_public
            (next_text b bs body))
          n
          (next_text b bs body)
          (delivered_node
            (with_blocks n (grown_chain md5 b bs body))
            x
            me
            id
            time
            message
            body
            count
            (length (b ∷ bs) + 1))
  answer_announcement-delivers n before x after b bs body time message another_dest my_public id
        count is h cursor roster clean over hit hm hf ht hx fits text other accepts unread room dest
        small =
      let new = next_block md5 (b ∷ bs) body in
      let grown = with_blocks n (grown_chain md5 b bs body) in
      let size : length (grown_chain md5 b bs body) ≡ length (b ∷ bs) + 1 =
        length-append (b ∷ bs) (new ∷ []) in
      let ids =
        IsChain-Ids md5 (grown_chain md5 b bs body)
          (next_block-IsChain md5 (b ∷ bs) body h clean) in
      answer_announcement-analysed e q md5 base64_decode limit me clock n _ b bs body another_dest
        my_public is h clean
        (analyse_one grown _ (length (b ∷ bs)) cursor size (
          analyse_block-files e q base64_decode me clock grown before x after new _ id count time
            message (numbered_at 1 _ (b ∷ bs) new [] ids (omega arith)) clean
            (roster.0, roster.1, Known-with_blocks e q n _ (before ++ x ∷ after) roster.2) over hit
            hm hf ht hx fits text other accepts unread))
        (omega (arith, size)) dest small
