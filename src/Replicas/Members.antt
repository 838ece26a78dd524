-- ===== src/Replicas/Members.antt =====
-- Which members take in an announced block (bcm-linux-console/Cpp_part.cpp,
-- send_message_server_part_function_i2pd): those that no key of theirs opens it for, and the one that
-- it is sealed for.
use blockchain_crypto_messan.Common.{
  ℕ, ◌+◌, ◌≤◌, ◌<◌, ◌≡◌, refl, sym, ap, length-append, [], ◌⊎◌, inl, inr, false, List, ◌∷◌, ◌++◌,
  length, get_or, text_eq, ◌==◌,
}
use blockchain_crypto_messan.Common.Int.{pos}
use blockchain_crypto_messan.Text.{Bytes, NoNul}
use blockchain_crypto_messan.Text.Decimal.{to_string}
use blockchain_crypto_messan.Transaction.{compose, max_transaction_length}
use blockchain_crypto_messan.Transaction.RoundTrip.{IsField}
use blockchain_crypto_messan.Sql.{BlockRow, Accepts, insert_message}
use blockchain_crypto_messan.Sql.Engine.{Engine, IsSqlite, Node, Runs, view}
use blockchain_crypto_messan.Keys.{buf_size}
use blockchain_crypto_messan.Decrypt.{decrypted}
use blockchain_crypto_messan.Decrypt.Roster.{Peer, PassedOver, tried}
use blockchain_crypto_messan.Chain.Links.{IsChain, last_hash, next_block}
use blockchain_crypto_messan.Analysis.Counters.{Unread, filed_row}
use blockchain_crypto_messan.Analysis.Wrappers.{Roster}
use blockchain_crypto_messan.Analysis.Cursor.{Foreign}
use blockchain_crypto_messan.Server.Accepted.{grown_chain}
use blockchain_crypto_messan.Server.Agreement.{next_text}
use blockchain_crypto_messan.Server.Answers.{answer_announcement-accepts}
use blockchain_crypto_messan.Server.Delivered.{answer_announcement-delivers}
use blockchain_crypto_messan.Replicas.{Member, reply}

module _ (e : Engine) (q : IsSqlite e) (md5 base64_decode : Bytes → Bytes) (limit : ℕ)
    (sender : Bytes) where
  abbrev pub node_of : Member e → Node
  node_of m = view e q m.world

  -- A member that answers by the announcement itself, and has `chain` then, analysed.
  pub record TakesIn (m : Member e) (text : Bytes) (chain : List BlockRow) : Type 0 where
    pub after : Node
    pub runs : Runs e q (reply e md5 base64_decode (pos limit) sender m text) (node_of m) text after
    pub same : after.blockchain ≡ chain
    pub analysed : after.last_analysed_id ≡ pos (length chain)

  module _ (b : BlockRow) (bs : List BlockRow) (body : Bytes) where
    -- A member with the chain `b ∷ bs`, which it has analysed.
    pub record InStep (m : Member e) : Type 0 where
      pub there : (node_of m).blockchain ≡ b ∷ bs
      pub cursor : (node_of m).last_analysed_id ≡ pos (length (b ∷ bs))
      pub other : text_eq sender m.destination ≡ false

    -- No key of the member opens the block.
    pub record IsForeign (m : Member e) : Type 0 where
      pub peers : List Peer
      pub roster : Roster e q (node_of m) peers
      pub foreign :
          Foreign e q base64_decode m.name m.clock (node_of m) peers (next_block md5 (b ∷ bs) body)

    -- The block is a message for the member from its correspondent `x`.
    pub record IsMessage (m : Member e) : Type 0 where
      pub before : List Peer
      pub x : Peer
      pub later : List Peer
      pub time : Bytes
      pub message : Bytes
      pub id : ℕ
      pub count : ℕ
      pub roster : Roster e q (node_of m) (before ++ x ∷ later)
      pub over : PassedOver e q (node_of m) m.name body before
      pub hit :
          tried e q (node_of m) m.name body x
          ≡ decrypted (compose (pos id) m.name x.user time message)
      pub name_field : IsField m.name
      pub user_field : IsField x.user
      pub time_field : IsField time
      pub message_field : IsField message
      pub fits : length (compose (pos id) m.name x.user time message) ≤ max_transaction_length
      pub plain_text : (get_or message 0 0 == b'$') ≡ false
      pub another : text_eq x.user m.name ≡ false
      pub accepted :
          Accepts
            (insert_message x.user (filed_row m.name (pos id) x.user time message))
            (node_of m).tables
      pub unread : Unread (node_of m) x.user count

    abbrev pub Prepared : Member e → Type 0
    Prepared m = InStep m × (IsForeign m ⊎ IsMessage m)

    pub Prepared-TakesIn :
        (m : Member e)
        → IsChain md5 (b ∷ bs)
        → NoNul body
        → length (b ∷ bs) + 1 < limit
        → length (to_string (pos (length (b ∷ bs) + 1)))
            + length (last_hash b.transaction_hash bs)
            + 1
          < buf_size
        → Prepared m
        → TakesIn m (next_text b bs body) (grown_chain md5 b bs body)
    Prepared-TakesIn m h clean room small (s, inl f) = record {
      after = _;
      runs =
          answer_announcement-accepts e q md5 base64_decode limit m.name m.clock (node_of m) f.peers
            b bs body sender m.destination s.there h s.cursor f.roster f.foreign room s.other small;
      same = refl;
      analysed = ap pos (sym (length-append (b ∷ bs) (next_block md5 (b ∷ bs) body ∷ [])));
    }
    Prepared-TakesIn m h clean room small (s, inr r) = record {
      after = _;
      runs =
          answer_announcement-delivers e q md5 base64_decode limit m.name m.clock (node_of m)
            r.before r.x r.later b bs body r.time r.message sender m.destination r.id r.count
            s.there h s.cursor r.roster clean r.over r.hit r.name_field r.user_field r.time_field
            r.message_field r.fits r.plain_text r.another r.accepted r.unread room s.other small;
      same = refl;
      analysed = ap pos (sym (length-append (b ∷ bs) (next_block md5 (b ∷ bs) body ∷ [])));
    }
