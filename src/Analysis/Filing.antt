-- ===== src/Analysis/Filing.antt =====
-- What the analysis does with a block that is a message to this node
-- (bcm-linux-console/Cpp_part.cpp, analyse_blockchain_for_input_messages).
use blockchain_crypto_messan.Common.{
  ℕ, ◌+◌, ◌≤◌, ◌≡◌, subst, true, false, some, List, [], ◌∷◌, ◌++◌, length, get_or, ◌==◌, text_eq,
  text_eq_refl,
}
use blockchain_crypto_messan.Common.Int.{ℤ, pos}
use blockchain_crypto_messan.Text.{Bytes, NoNul}
use blockchain_crypto_messan.Transaction.{compose, max_transaction_length}
use blockchain_crypto_messan.Transaction.RoundTrip.{IsField, parser-compose}
use blockchain_crypto_messan.Sql.{MessageRow, BlockRow, apply, Accepts, numbered, insert_message}
use blockchain_crypto_messan.Sql.Engine.{
  Engine, IsSqlite, Node, Runs, Runs-pure, Runs-bind, run_sql-Runs,
}
use blockchain_crypto_messan.Keys.Laws.{with_seek}
use blockchain_crypto_messan.Keys.Encrypt.{pos-+ℤ}
use blockchain_crypto_messan.Decrypt.{decrypted, try_decrypt}
use blockchain_crypto_messan.Decrypt.Roster.{Peer, PassedOver, tried, try_decrypt-Runs}
use blockchain_crypto_messan.Analysis.{
  add_record_to_user_table, analyse_block, analyse_input_message_for_file_content, file_transaction,
  examined,
}
use blockchain_crypto_messan.Analysis.Wrappers.{
  Roster, with_cursor, get_transaction_body_where_id-Runs, set_last_analysed_id_in_blockchain-Runs,
  set_last_available_id_in_blockchain-Runs,
}
use blockchain_crypto_messan.Analysis.Counters.{
  with_count, with_message, Unread, transaction, filed_row, Unread-with_seek,
  update_new_message_count_to_user-Runs,
}

module _ (e : Engine) (q : IsSqlite e) where
  pub add_record_to_user_table-Runs :
      (n : Node) (table : Bytes) (m : MessageRow)
      → Accepts (insert_message table m) n.tables
      → Runs e q
          (add_record_to_user_table e table m.id_transaction m.hwo_sender m.hwo_receiver
            m.time_of_sending m.message)
          n
          true
          (with_message n table m)
  unfolding add_record_to_user_table apply
  add_record_to_user_table-Runs n table m h =
      Runs-bind e q _ (run_sql-Runs e q (insert_message table m) n h) (Runs-pure e q _ _)

  module _ (base64_decode : Bytes → Bytes) (me : Bytes) where
    file_transaction-Runs :
        (n : Node) (name from time message : Bytes) (id : ℤ) (count : ℕ)
        → (get_or message 0 0 == b'$') ≡ false
        → text_eq from me ≡ false
        → Accepts (insert_message from (filed_row me id from time message)) n.tables
        → Unread n from count
        → Runs e q
            (file_transaction e base64_decode me name (transaction me id from time message))
            n
            tt
            (with_count
              (with_message n from (filed_row me id from time message))
              from
              (pos (count + 1)))
    unfolding file_transaction analyse_input_message_for_file_content
    file_transaction-Runs n name from time message id count text other h unread =
        rw (text_eq_refl me, other, text)
          (Runs-bind e q _ (Runs-pure e q _ _) (
            Runs-bind e q _
              (add_record_to_user_table-Runs n from (filed_row me id from time message) h)
              (Runs-bind e q _ (update_new_message_count_to_user-Runs e q _ from count h.0 unread)
                (Runs-pure e q _ _))))

    examined-Runs :
        (n : Node) (name from time message : Bytes) (id count : ℕ)
        → IsField me
        → IsField from
        → IsField time
        → IsField message
        → length (compose (pos id) me from time message) ≤ max_transaction_length
        → (get_or message 0 0 == b'$') ≡ false
        → text_eq from me ≡ false
        → Accepts (insert_message from (filed_row me (pos id) from time message)) n.tables
        → Unread n from count
        → Runs e q
            (examined e base64_decode me name (some (compose (pos id) me from time message)))
            n
            tt
            (with_count
              (with_message n from (filed_row me (pos id) from time message))
              from
              (pos (count + 1)))
    examined-Runs n name from time message id count hm hf ht hx fits text other h unread =
        rw (parser-compose id me from time message hm hf ht hx fits) (
          Runs-bind e q _ (Runs-pure e q _ _)
            (file_transaction-Runs n name from time message (pos id) count text other h unread))

    -- A block whose body the first key that does not pass over it opens to a composed message for this
    -- node from that key's owner, another one, is filed: the message is appended to the table of the
    -- sender, which is there, the counter of unread messages goes up by one, the offset of the key
    -- moves behind the body, and the cursor is on the block. The message does not begin with `$`, and
    -- no field has a separator or a quote.
    pub analyse_block-files :
        (clock : ℤ → Bytes) (n : Node) (before : List Peer) (x : Peer) (after : List Peer)
        (b : BlockRow) (ii : ℤ) (id count : ℕ) (time message : Bytes)
        → numbered ii n.blockchain ≡ b ∷ []
        → NoNul b.transaction_body
        → Roster e q n (before ++ x ∷ after)
        → PassedOver e q n me b.transaction_body before
        → tried e q n me b.transaction_body x ≡ decrypted (compose (pos id) me x.user time message)
        → IsField me
        → IsField x.user
        → IsField time
        → IsField message
        → length (compose (pos id) me x.user time message) ≤ max_transaction_length
        → (get_or message 0 0 == b'$') ≡ false
        → text_eq x.user me ≡ false
        → Accepts (insert_message x.user (filed_row me (pos id) x.user time message)) n.tables
        → Unread n x.user count
        → Runs e q (analyse_block e base64_decode me clock ii) n tt (
            with_cursor
              (with_count
                (with_message
                  (with_seek n x.user (pos (x.seek + length b.transaction_body)))
                  x.user
                  (filed_row me (pos id) x.user time message))
                x.user
                (pos (count + 1)))
              ii)
    unfolding analyse_block
    analyse_block-files clock n before x after b ii id count time message there clean roster over
          hit hm hf ht hx fits text other accepts unread =
        Runs-bind e q _ (get_transaction_body_where_id-Runs e q n ii b there clean) (
          Runs-bind e q _
            (subst
              (λ s.
                Runs e q (try_decrypt e me b.transaction_body) n
                  (some (compose (pos id) me x.user time message)) (with_seek n x.user s))
              (pos-+ℤ x.seek (length b.transaction_body))
              (try_decrypt-Runs e q n me b.transaction_body before x after _ clean roster.0 roster.1
                roster.2 over hit))
            (Runs-bind e q _
              (examined-Runs _ (clock ii) x.user time message id count hm hf ht hx fits text other
                accepts (Unread-with_seek n x.user _ count unread))
              (Runs-bind e q _ (set_last_analysed_id_in_blockchain-Runs e q _ ii)
                (set_last_available_id_in_blockchain-Runs e q _ ii))))
