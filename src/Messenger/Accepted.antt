-- ===== src/Messenger/Accepted.antt =====
-- A message that most peers agree with (bcm-linux-console/Messenger.cpp).
use blockchain_crypto_messan.Common.{
  ℕ, ◌+◌, ◌≤◌, ◌<◌, ◌≡◌, refl, sym, subst, none, List, [], ◌∷◌, ◌++◌, arith, length, take, drop,
  text_eq_refl,
}
use blockchain_crypto_messan.Common.Int.{ℤ, pos}
use blockchain_crypto_messan.Text.{Bytes, NoNul}
use blockchain_crypto_messan.Text.Decimal.{atoi-to_string}
use blockchain_crypto_messan.Transaction.{compose}
use blockchain_crypto_messan.Pad.{xor_bytes}
use blockchain_crypto_messan.Sql.{BlockRow, MessageRow, Accepts, insert_message}
use blockchain_crypto_messan.Sql.Engine.{Engine, IsSqlite, Node, Runs, Runs-pure, Runs-bind}
use blockchain_crypto_messan.Keys.Laws.{Contact, with_seek}
use blockchain_crypto_messan.Keys.Encrypt.{pos-+ℤ, encrypt_text_message_lem}
use blockchain_crypto_messan.Decrypt.Roster.{Peer}
use blockchain_crypto_messan.Chain.{removed}
use blockchain_crypto_messan.Chain.Links.{IsChain, next_block, next_block-IsChain}
use blockchain_crypto_messan.Chain.Import.{with_blocks, get_how_much_id-Runs}
use blockchain_crypto_messan.Chain.File.{IsEntry, IsEntry-NoNul, blockchain_from_file_to_db-Runs}
use blockchain_crypto_messan.Analysis.Counters.{with_message}
use blockchain_crypto_messan.Analysis.Wrappers.{with_cursor, Roster}
use blockchain_crypto_messan.Analysis.Cursor.{Foreign, analyse_blockchain-passes}
use blockchain_crypto_messan.Analysis.Filing.{add_record_to_user_table-Runs}
use blockchain_crypto_messan.Export.{appended}
use blockchain_crypto_messan.Server.Agreement.{next_text}
use blockchain_crypto_messan.Vote.{Network, gag, count}
use blockchain_crypto_messan.Vote.Election.{hash_at}
use blockchain_crypto_messan.Announce.Sent.{Voters, send_message_i2pd-agreed}
use blockchain_crypto_messan.Messenger.{buf_file, taken_in, numbered_message, send_text}

abbrev pub sent_row : ℕ → Bytes → Bytes → Bytes → Bytes → MessageRow
sent_row id my_name user date_time message = record {
  id_transaction = pos id;
  hwo_sender = my_name;
  hwo_receiver = user;
  time_of_sending = date_time;
  message = message;
}

-- The node behind the import of the buffer file.
abbrev pub imported_node : (Bytes → Bytes) → Node → Bytes → ℕ → List BlockRow → Bytes → Node
imported_node md5 n user seek bs body =
    record (with_blocks (with_seek n user (pos seek)) (bs ++ next_block md5 bs body ∷ [])) {
      files = removed buf_file (appended buf_file (body ++ b'~' ∷ []) n.files);
    }

module _ (md5 : Bytes → Bytes) (my_name : Bytes) (n : Node) (b : BlockRow) (bs : List BlockRow)
    (user key date_time message : Bytes) (seek : ℕ) where
  -- The text that is composed, what the key makes of it, and the node that has it in its chain.
  abbrev pub text : Bytes
  text = compose (pos (length (b ∷ bs) + 1)) user my_name date_time message

  abbrev pub body : Bytes
  body = xor_bytes text (take (length text) (drop seek key))

  abbrev pub taken : Node
  taken = imported_node md5 n user (seek + length text) (b ∷ bs) body

  abbrev pub filed : Node
  filed =
      with_message
        (with_cursor taken (pos (length ((b ∷ bs) ++ next_block md5 (b ∷ bs) body ∷ [])))) user
        (sent_row (length (b ∷ bs) + 1) my_name user date_time message)

  module _ (e : Engine) (q : IsSqlite e) (base64_decode : Bytes → Bytes) (limit : ℕ)
      (announcing updating : Network) (clock : ℤ → Bytes) (peers : List Peer)
      (is : n.blockchain ≡ b ∷ bs) (chain : IsChain md5 (b ∷ bs))
      (cursor : n.last_analysed_id ≡ pos (length (b ∷ bs))) (room : length (b ∷ bs) + 1 < limit)
      (empty : n.files buf_file ≡ none) (clean : IsEntry body) (roster : Roster e q taken peers)
      (foreign : Foreign e q base64_decode my_name clock taken peers (next_block md5 (b ∷ bs) body))
      (accepted : Accepts
        (insert_message user (sent_row (length (b ∷ bs) + 1) my_name user date_time message))
        (with_cursor taken
          (pos (length ((b ∷ bs) ++ next_block md5 (b ∷ bs) body ∷ [])))).tables) where
    taken_in-Runs :
        Runs e q
          (taken_in e md5 base64_decode
            (pos limit)
            announcing
            updating
            my_name
            clock
            (pos (length (b ∷ bs) + 1))
            user
            date_time
            message)
          (record (with_seek n user (pos (seek + length text))) {
            files = appended buf_file (body ++ b'~' ∷ []) n.files;
          })
          tt
          filed
    unfolding taken_in
    taken_in-Runs =
        Runs-bind e q _
          (blockchain_from_file_to_db-Runs e q md5 limit buf_file (body ∷ []) _ (b ∷ bs)
            (rw (text_eq_refl buf_file, empty) refl) is chain (clean, tt) (omega arith))
          (Runs-bind e q _
            (analyse_blockchain-passes e q base64_decode my_name clock md5 taken peers (b ∷ bs) _ []
              refl (next_block-IsChain md5 (b ∷ bs) body chain (IsEntry-NoNul body clean)) cursor
              roster (foreign, tt))
            (Runs-bind e q _
              (add_record_to_user_table-Runs e q _ user
                (sent_row (length (b ∷ bs) + 1) my_name user date_time message) accepted)
              (Runs-pure e q tt filed)))

    -- If more than half of the listed peers that answer agree with the announcement, which fits
    -- its array, of a message for which enough key is left, whose composed text has no NUL and
    -- whose sealed text has no NUL and no `~`, to a correspondent who has a table, the names, the
    -- date and the message without quote and NUL, and the node, of ten correspondents at most,
    -- below the limit and without a buffer file, has analysed its chain and opens the new block
    -- with no key, then the sealed text is the next block, the message stands in the
    -- correspondent's table, the offset of the key is behind it, the cursor is on the new block
    -- and the buffer file is gone.
    pub send_text-accepted :
        (v : Voters n.files announcing my_name (next_text b bs body)) (i : ℕ)
        → Contact n user key seek
        → NoNul text
        → seek + length text ≤ length key
        → i < length v.answers
        → hash_at v.answers i ≡ next_text b bs body
        → length v.answers
          < count (next_text b bs body) v.answers
            + count (next_text b bs body) v.answers
            + count gag v.answers
        → Runs e q
            (send_text e md5 base64_decode
              (pos limit)
              announcing
              updating
              my_name
              clock
              user
              date_time
              message)
            n
            tt
            filed
    unfolding send_text numbered_message
    send_text-accepted v i c no_nul enough lt agrees more =
        Runs-bind e q _ (get_how_much_id-Runs e q n) (
          rw (atoi-to_string (length n.blockchain), pos-+ℤ (length n.blockchain) 1)
            (subst
              (λ r.
                Runs e q
                  (numbered_message e md5 base64_decode (pos limit) announcing updating my_name
                    clock user date_time message (pos (length r + 1)))
                  n tt filed)
              (sym is)
              (Runs-bind e q _ (encrypt_text_message_lem e q c text no_nul enough) (
                Runs-bind e q _
                  (send_message_i2pd-agreed e q md5 announcing my_name buf_file
                    (with_seek n user (pos (seek + length text))) b bs body v i is chain
                    (IsEntry-NoNul body clean) lt agrees more)
                  taken_in-Runs))))
