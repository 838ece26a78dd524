-- ===== src/Announce/Sent.antt =====
-- A node that sends a transaction and takes it into its own chain (`send_message_i2pd` of
-- bcm-linux-console/Cpp_part.cpp, and the import behind it in bcm-linux-console/Messenger.cpp).
use blockchain_crypto_messan.Common.{
  ℕ, suc, ◌+◌, ◌≤◌, ◌<◌, ◌≡◌, refl, sym, ap, subst, ◌∙◌, if◌then◌else◌, Bool, true, false, none,
  some, List, [], ◌∷◌, ◌++◌, arith, length, ltb, ◌==◌, text_eq, text_eq→eq, text_eq_refl,
  Bool-cases, inl, inr,
}
use blockchain_crypto_messan.Common.Int.{pos}
use blockchain_crypto_messan.Text.{Bytes, NoNul, c_str-eq}
use blockchain_crypto_messan.Text.Decimal.{to_string, atoi-to_string}
use blockchain_crypto_messan.Program.{pure, ◌>>=◌, ◌>>◌}
use blockchain_crypto_messan.Transaction.{separator}
use blockchain_crypto_messan.Transaction.RoundTrip.{IsField, to_string-IsField}
use blockchain_crypto_messan.Sql.{BlockRow}
use blockchain_crypto_messan.Sql.Engine.{
  Engine, IsSqlite, Files, Node, Runs, Runs-pure, Runs-bind, Runs-file, Runs-write,
}
use blockchain_crypto_messan.Chain.Links.{IsChain, last_hash, next_block, last_hash-IsField}
use blockchain_crypto_messan.Chain.Import.{
  with_blocks, get_how_much_id-Runs, get_hash_id_container-Runs,
}
use blockchain_crypto_messan.Chain.{removed, blockchain_from_file_to_db}
use blockchain_crypto_messan.Chain.File.{IsEntry, IsEntry-NoNul, blockchain_from_file_to_db-Runs}
use blockchain_crypto_messan.Keys.Encrypt.{pos-+ℤ}
use blockchain_crypto_messan.Export.{appended}
use blockchain_crypto_messan.Server.Agreement.{next_text}
use blockchain_crypto_messan.Vote.{Network, gag, count, elect, destinations, max_peers, keys_folder}
use blockchain_crypto_messan.Vote.Adopt.{own_of}
use blockchain_crypto_messan.Vote.Election.{hash_at, elect-majority}
use blockchain_crypto_messan.Announce.{
  answer_length, user_list_client_i2pd_2, public_send_message, no_answer, behind_separators,
  decided, asked, with_ballot, send_message_i2pd,
}
use blockchain_crypto_messan.Announce.Ballot.{Cast, ballot-Runs}

behind-field :
    (s rest : Bytes) (n : ℕ)
    → IsField s
    → behind_separators (suc n) (s ++ separator ∷ rest) ≡ behind_separators n rest
unfolding behind_separators
behind-field [] rest n h = refl
behind-field (c ∷ s) rest n h =
    let other : (c == separator) ≡ false = ground (arith, h.0.1) in
    ap (λ t. behind_separators (if t then n else suc n) (s ++ separator ∷ rest)) other
    ∙ behind-field s rest n h.1

behind-next_text :
    (b : BlockRow) (bs : List BlockRow) (message : Bytes)
    → IsField (last_hash b.transaction_hash bs)
    → behind_separators 2 (next_text b bs message) ≡ some message
unfolding behind_separators
behind-next_text b bs message h =
    behind-field _ _ 1 (to_string-IsField (length (b ∷ bs) + 1)) ∙ behind-field _ _ 0 h

pub not_behind :
    (b : BlockRow) (bs : List BlockRow) (message answer : Bytes)
    → IsField (last_hash b.transaction_hash bs)
    → next_text b bs message ≡ answer
    → behind_separators 2 answer ≡ none
    → ⊥
not_behind b bs message answer h is nothing =
    let same : some message ≡ none =
      sym (behind-next_text b bs message h) ∙ ap (behind_separators 2) is ∙ nothing in
    ground (arith, same)

-- A node with a list of peers, and their answers to the request `text`.
pub record Voters (files : Files) (network : Network) (name text : Bytes) : Type 0 where
  pub list : Bytes
  pub peer : Bytes
  pub peers : List Bytes
  pub c : ℕ
  pub content : Bytes
  pub answers : List Bytes
  pub list_file : files user_list_client_i2pd_2 ≡ some list
  pub list_read : destinations (length list) list ≡ some (peer ∷ peers)
  pub few : length (peer ∷ peers) ≤ max_peers
  pub own_file : files (keys_folder ++ name ++ public_send_message) ≡ some (c ∷ content)
  pub fits : length text + 1 < answer_length
  pub cast : Cast network (own_of (c ∷ content)) text 0 (peer ∷ peers) answers

module _ (e : Engine) (q : IsSqlite e) where
  -- Behind the ballot, the message stands in the file.
  pub decided-Runs :
      (path : Bytes) (n : Node) (b : BlockRow) (bs : List BlockRow) (message : Bytes)
      → IsField (last_hash b.transaction_hash bs)
      → Runs e q
          (decided e path (next_text b bs message))
          n
          true
          (record n { files = appended path (message ++ b'~' ∷ []) n.files })
  unfolding behind_separators
  decided-Runs path n b bs message h =
      elim (Bool-cases (text_eq (next_text b bs message) no_answer)) [
        | inl same ↦ absurd (not_behind b bs message no_answer h (text_eq→eq _ _ same) refl)
        | inr other ↦
            rw (other, behind-next_text b bs message h)
              (Runs-bind e q _ (Runs-write e q (appended path (message ++ b'~' ∷ [])) n)
                (Runs-pure e q true _))
      ]

module _ (e : Engine) (q : IsSqlite e) (md5 : Bytes → Bytes) (network : Network)
    (name path : Bytes) where
  asked-Runs :
      (n m : Node) (b : BlockRow) (bs : List BlockRow) (message : Bytes) (answer : Bool)
      (v : Voters n.files network name (next_text b bs message))
      → n.blockchain ≡ b ∷ bs
      → IsChain md5 (b ∷ bs)
      → NoNul message
      → Runs e q (decided e path (hash_at v.answers (elect v.answers))) n answer m
      → Runs e q
          (asked e network name message path (v.peer ∷ v.peers) (to_string (pos (length (b ∷ bs)))))
          n
          answer
          m
  unfolding asked
  asked-Runs n m b bs message answer v is h clean after =
      rw (atoi-to_string (length (b ∷ bs)), pos-+ℤ (length (b ∷ bs)) 1, c_str-eq message clean)
        (Runs-bind e q _ (get_hash_id_container-Runs e q md5 n b bs is h)
          (Runs-bind e q _ (ballot-Runs e q _ n v.fits name v.content v.c v.own_file v.cast) after))

  with_ballot-Runs :
      (n m : Node) (b : BlockRow) (bs : List BlockRow) (message : Bytes) (answer : Bool)
      (v : Voters n.files network name (next_text b bs message))
      → n.blockchain ≡ b ∷ bs
      → IsChain md5 (b ∷ bs)
      → NoNul message
      → Runs e q (decided e path (hash_at v.answers (elect v.answers))) n answer m
      → Runs e q (with_ballot e network name message path (v.peer ∷ v.peers)) n answer m
  unfolding with_ballot
  with_ballot-Runs n m b bs message answer v is h clean after =
      Runs-bind e q _ (get_how_much_id-Runs e q n) (
        subst
          (λ r.
            Runs e q
              (asked e network name message path (v.peer ∷ v.peers) (to_string (pos (length r)))) n
              answer m)
          (sym is) (asked-Runs n m b bs message answer v is h clean after))

  pub send_message_i2pd-Runs :
      (n m : Node) (b : BlockRow) (bs : List BlockRow) (message : Bytes) (answer : Bool)
      (v : Voters n.files network name (next_text b bs message))
      → n.blockchain ≡ b ∷ bs
      → IsChain md5 (b ∷ bs)
      → NoNul message
      → Runs e q (decided e path (hash_at v.answers (elect v.answers))) n answer m
      → Runs e q (send_message_i2pd e network name message path) n (some answer) m
  unfolding send_message_i2pd
  send_message_i2pd-Runs n m b bs message answer v is h clean after =
      let few : ltb max_peers (length (v.peer ∷ v.peers)) ≡ false = ground (arith, v.few) in
      Runs-bind e q _ (Runs-file e q user_list_client_i2pd_2 n) (
        rw (v.list_file, v.list_read, few)
          (Runs-bind e q _ (Runs-pure e q (v.peer ∷ v.peers) n) (
            Runs-bind e q _ (with_ballot-Runs n m b bs message answer v is h clean after)
              (Runs-pure e q (some answer) m))))

  -- The message that most peers agree with is sent.
  pub send_message_i2pd-agreed :
      (n : Node) (b : BlockRow) (bs : List BlockRow) (message : Bytes)
      (v : Voters n.files network name (next_text b bs message)) (i : ℕ)
      → n.blockchain ≡ b ∷ bs
      → IsChain md5 (b ∷ bs)
      → NoNul message
      → i < length v.answers
      → hash_at v.answers i ≡ next_text b bs message
      → length v.answers
        < count (next_text b bs message) v.answers
          + count (next_text b bs message) v.answers
          + count gag v.answers
      → Runs e q
          (send_message_i2pd e network name message path)
          n
          (some true)
          (record n { files = appended path (message ++ b'~' ∷ []) n.files })
  unfolding behind_separators
  send_message_i2pd-agreed n b bs message v i is h clean lt agrees more =
      let field : IsField (last_hash b.transaction_hash bs) = last_hash-IsField md5 b bs h in
      let elected : hash_at v.answers (elect v.answers) ≡ next_text b bs message =
        elect-majority v.answers (next_text b bs message) i lt agrees
          (λ same. not_behind b bs message gag field same refl) more in
      send_message_i2pd-Runs n _ b bs message true v is h clean (
        subst
          (λ t.
            Runs e q (decided e path t) n true
              (record n { files = appended path (message ++ b'~' ∷ []) n.files }))
          (sym elected) (decided-Runs e q path n b bs message field))

  -- If more than half of the listed peers that answer agree with the announcement of the next block
  -- behind the node's chain, which is below the limit, and nothing is in the buffer file, then a
  -- message without NUL or `~` is sent, and after the import of the buffer file the node has one block
  -- more, with that message, and the buffer file is gone.
  pub send_message_i2pd-majority :
      (n : Node) (limit : ℕ) (b : BlockRow) (bs : List BlockRow) (message : Bytes)
      (v : Voters n.files network name (next_text b bs message)) (i : ℕ)
      → n.blockchain ≡ b ∷ bs
      → IsChain md5 (b ∷ bs)
      → IsEntry message
      → length (b ∷ bs) + 1 < limit
      → n.files path ≡ none
      → i < length v.answers
      → hash_at v.answers i ≡ next_text b bs message
      → length v.answers
        < count (next_text b bs message) v.answers
          + count (next_text b bs message) v.answers
          + count gag v.answers
      → Runs e q
          (do
            sent ← send_message_i2pd e network name message path
            blockchain_from_file_to_db e md5 (pos limit) path
            pure sent)
          n
          (some true)
          (record (with_blocks n ((b ∷ bs) ++ next_block md5 (b ∷ bs) message ∷ [])) {
            files = removed path (appended path (message ++ b'~' ∷ []) n.files);
          })
  send_message_i2pd-majority n limit b bs message v i is h clean room empty lt agrees more =
      Runs-bind e q _
        (send_message_i2pd-agreed n b bs message v i is h (IsEntry-NoNul message clean) lt agrees
          more)
        (Runs-bind e q _
          (blockchain_from_file_to_db-Runs e q md5 limit path (message ∷ []) _ (b ∷ bs)
            (rw (text_eq_refl path, empty) refl) is h (clean, tt) (omega arith))
          (Runs-pure e q (some true) _))
