-- ===== src/Replicas/Sending.antt =====
-- One member sends a message, and every other member answers its announcement
-- (bcm-linux-console/Messenger.cpp and bcm-linux-console/Cpp_part.cpp): the step of the whole system.
use blockchain_crypto_messan.Common.{
  ℕ, ◌+◌, ◌*◌, ◌≤◌, ◌<◌, ◌≡◌, ◌⊎◌, true, false, none, some, List, [], ◌∷◌, ◌++◌, length, text_eq,
  All,
}
use blockchain_crypto_messan.Common.Int.{pos}
use blockchain_crypto_messan.Text.{Bytes, NoNul}
use blockchain_crypto_messan.Text.Decimal.{to_string}
use blockchain_crypto_messan.Program.{returned}
use blockchain_crypto_messan.Sql.{BlockRow, Accepts, insert_message}
use blockchain_crypto_messan.Sql.Engine.{Engine, IsSqlite, World, Node, view}
use blockchain_crypto_messan.Keys.{buf_size}
use blockchain_crypto_messan.Keys.Laws.{Contact}
use blockchain_crypto_messan.Decrypt.Roster.{Peer}
use blockchain_crypto_messan.Chain.Links.{IsChain, last_hash, next_block}
use blockchain_crypto_messan.Chain.File.{IsEntry}
use blockchain_crypto_messan.Analysis.Wrappers.{with_cursor, Roster}
use blockchain_crypto_messan.Analysis.Cursor.{Foreign}
use blockchain_crypto_messan.Wire.{piece_size}
use blockchain_crypto_messan.Wire.Pieces.{FullSpeed}
use blockchain_crypto_messan.Vote.{Network}
use blockchain_crypto_messan.Vote.Adopt.{own_of}
use blockchain_crypto_messan.Server.Accepted.{grown_chain}
use blockchain_crypto_messan.Server.Agreement.{next_text}
use blockchain_crypto_messan.Announce.{answer_length}
use blockchain_crypto_messan.Messenger.{buf_file, send_text}
use blockchain_crypto_messan.Messenger.Accepted.{text, body, taken, sent_row}
use blockchain_crypto_messan.Replicas.{Member, joined_by, reply, member_at}
use blockchain_crypto_messan.Replicas.Members.{IsForeign, IsMessage}
use blockchain_crypto_messan.Replicas.Round.{Announcer}

module _ (e : Engine) (q : IsSqlite e) (md5 base64_decode : Bytes → Bytes) (limit : ℕ)
    (amounts : List ℕ) where
  -- Who sends what to which correspondent, and the network while a refused chain is renewed.
  pub record Turn : Type 0 where
    pub sender : Member e
    pub updating : Network
    pub user : Bytes
    pub key : Bytes
    pub date_time : Bytes
    pub message : Bytes
    pub seek : ℕ

  -- The members agree on one chain, which each of them has analysed.
  abbrev pub HasAnalysed : List BlockRow → Member e → Type 0
  HasAnalysed chain m =
      ((view e q m.world).blockchain ≡ chain)
      × ((view e q m.world).last_analysed_id ≡ pos (length chain))

  pub record Agreed (chain : List BlockRow) (ms : List (Member e)) : Type 0 where
    pub linked : IsChain md5 chain
    pub all : All (HasAnalysed chain) ms

  module _ (b : BlockRow) (bs : List BlockRow) (t : Turn) where
    abbrev pub at : Node
    at = view e q t.sender.world

    abbrev pub sealed : Bytes
    sealed = body md5 t.sender.name at b bs t.user t.key t.date_time t.message t.seek

    -- The chain behind the turn.
    abbrev pub grown : List BlockRow
    grown = grown_chain md5 b bs sealed

    abbrev pub reached_node : Node
    reached_node = taken md5 t.sender.name at b bs t.user t.key t.date_time t.message t.seek

    -- A member that takes the block in.
    abbrev pub Hears : Member e → Type 0
    Hears m =
        (text_eq t.sender.destination m.destination ≡ false)
        × (IsForeign e q md5 base64_decode limit t.sender.destination b bs sealed m
            ⊎ IsMessage e q md5 base64_decode limit t.sender.destination b bs sealed m)

    -- What the sender needs: a key, a free buffer file, and peers that hear it.
    pub record CanSend (ms : List (Member e)) : Type 0 where
      pub correspondents : List Peer
      pub announcer : Announcer at t.sender.name
      pub contact : Contact at t.user t.key t.seek
      pub clean : NoNul (text md5 t.sender.name at b bs t.user t.key t.date_time t.message t.seek)
      pub enough :
          t.seek + length (text md5 t.sender.name at b bs t.user t.key t.date_time t.message t.seek)
          ≤ length t.key
      pub entry : IsEntry sealed
      pub below : length (b ∷ bs) + 1 < limit
      pub empty : at.files buf_file ≡ none
      pub roster : Roster e q reached_node correspondents
      pub foreign :
          Foreign e q base64_decode t.sender.name t.sender.clock reached_node correspondents
            (next_block md5 (b ∷ bs) sealed)
      pub accepted :
          Accepts
            (insert_message t.user
              (sent_row (length (b ∷ bs) + 1) t.sender.name t.user t.date_time t.message))
            (with_cursor reached_node (pos (length grown))).tables
      pub small :
          length (to_string (pos (length (b ∷ bs) + 1)))
            + length (last_hash b.transaction_hash bs)
            + 1
          < buf_size
      pub fits : length (next_text b bs sealed) + 1 < answer_length
      pub full : FullSpeed amounts
      pub pieces : length (next_text b bs sealed) ≤ piece_size * length amounts
      pub listed :
          All
            (λ peer.
              (text_eq peer (own_of (announcer.c ∷ announcer.content)) ≡ true)
              ⊎ ((m : Member e) × (member_at e peer ms ≡ some m) × Hears m))
            (announcer.peer ∷ announcer.peers)

    -- What a member does in the turn: the sender sends, the others answer.
    pub data Acts (ms : List (Member e)) : Member e → Member e → Type 0 where
      sends :
          (w : World e)
          → send_text e md5 base64_decode
              (pos limit)
              (joined_by e md5 base64_decode (pos limit) t.sender.destination amounts ms)
              t.updating
              t.sender.name
              t.sender.clock
              t.user
              t.date_time
              t.message
              t.sender.world
            ≡ (returned tt, w)
          → Acts ms t.sender (record t.sender { world = w })
      answers :
          (m : Member e) (answer : Bytes) (w : World e)
          → Hears m
          → reply e md5 base64_decode
              (pos limit)
              t.sender.destination
              m
              (next_text b bs sealed)
              m.world
            ≡ (returned answer, w)
          → Acts ms m (record m { world = w })

    pub data AllAct (ms : List (Member e)) : List (Member e) → List (Member e) → Type 0 where
      none_left : AllAct ms [] []
      one_more :
          {m m' : Member e} {rest rest' : List (Member e)}
          → Acts ms m m'
          → AllAct ms rest rest'
          → AllAct ms (m ∷ rest) (m' ∷ rest')

  -- The system after some turns.
  pub data Turns (b : BlockRow) (bs : List BlockRow) (ms : List (Member e))
      : List BlockRow → List (Member e) → Type 0 where
    start : Turns b bs ms bs ms
    turn :
        (bs' : List BlockRow) (ms' ms'' : List (Member e))
        → Turns b bs ms bs' ms'
        → (t : Turn) → CanSend b bs' t ms'
        → AllAct b bs' t ms' ms' ms''
        → Turns b bs ms (bs' ++ next_block md5 (b ∷ bs') (sealed b bs' t) ∷ []) ms''
