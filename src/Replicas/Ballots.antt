-- ===== src/Replicas/Ballots.antt =====
-- What the members answer to an announcement (bcm-linux-console/Cpp_part.cpp).
use blockchain_crypto_messan.Common.{
  ℕ, ◌+◌, ◌*◌, ◌≤◌, ◌<◌, ◌≡◌, refl, ◌⊎◌, inl, inr, Bool, true, false, some, List, [], ◌∷◌, arith,
  length, map, text_eq, text_eq_refl, Bool-cases, All,
}
use blockchain_crypto_messan.Common.Int.{pos}
use blockchain_crypto_messan.Text.{Bytes, NoNul}
use blockchain_crypto_messan.Program.{returned}
use blockchain_crypto_messan.Sql.{BlockRow}
use blockchain_crypto_messan.Sql.Engine.{Engine, IsSqlite}
use blockchain_crypto_messan.Keys.{buf_size}
use blockchain_crypto_messan.Text.Decimal.{to_string}
use blockchain_crypto_messan.Chain.Links.{IsChain, last_hash}
use blockchain_crypto_messan.Wire.{message, piece_size, no_response, get_hash_or_blockchain_i2pd}
use blockchain_crypto_messan.Wire.Pieces.{FullSpeed}
use blockchain_crypto_messan.Wire.Client.{get_hash_or_blockchain_i2pd-answered}
use blockchain_crypto_messan.Vote.{count}
use blockchain_crypto_messan.Server.Accepted.{grown_chain}
use blockchain_crypto_messan.Server.Agreement.{next_text}
use blockchain_crypto_messan.Announce.{answer_length}
use blockchain_crypto_messan.Announce.Ballot.{Cast, cast_all, cast_self, cast_answer}
use blockchain_crypto_messan.Replicas.{Member, member_at, joined_by}
use blockchain_crypto_messan.Replicas.Members.{TakesIn, Prepared, Prepared-TakesIn}

both : {t : Bool} → t ≡ true → t ≡ false → ⊥
both h k = ground (arith, h, k)

-- All votes for one text.
pub count-same :
    (text : Bytes) (peers : List Bytes) → count text (map (λ peer. text) peers) ≡ length peers
unfolding count
count-same text [] = refl
count-same text (peer ∷ peers) = rw (text_eq_refl text) (omega (arith, count-same text peers))

module _ (e : Engine) (q : IsSqlite e) (md5 base64_decode : Bytes → Bytes) (limit : ℕ)
    (sender : Bytes) (amounts : List ℕ) where
  -- Each listed peer is the sender itself or a member that takes in the block.
  abbrev pub Reached : List (Member e) → Bytes → Bytes → List BlockRow → List Bytes → Type 0
  Reached ms pd text chain peers =
      All
        (λ peer.
          (text_eq peer pd ≡ true)
          ⊎ ((m : Member e) × (member_at e peer ms ≡ some m)
              × TakesIn e q md5 base64_decode limit sender m text chain))
        peers

  module _ (text : Bytes) (clean : NoNul text) (fits : length text < answer_length)
      (full : FullSpeed amounts) (room : length text ≤ piece_size * length amounts) where
    member_answers :
        (ms : List (Member e)) (k : ℕ) (peer : Bytes) (m : Member e) (chain : List BlockRow)
        → member_at e peer ms ≡ some m
        → TakesIn e q md5 base64_decode limit sender m text chain
        → get_hash_or_blockchain_i2pd answer_length
            (message text)
            (joined_by e md5 base64_decode (pos limit) sender amounts ms k peer (message text))
          ≡ returned text
    unfolding joined_by
    member_answers ms k peer m chain found t =
        let answered = (t.runs.at m.world refl).1 in
        rw (found, answered)
          (get_hash_or_blockchain_i2pd-answered answer_length (message text) text amounts clean
            (omega arith) (omega arith) full room)

    -- So each peer casts the announcement itself.
    pub Cast-joined_by :
        (ms : List (Member e)) (pd : Bytes) (chain : List BlockRow) (peers : List Bytes) (k : ℕ)
        → text_eq text (no_response (message text)) ≡ false
        → Reached ms pd text chain peers
        → Cast
            (joined_by e md5 base64_decode (pos limit) sender amounts ms)
            pd
            text
            k
            peers
            (map (λ peer. text) peers)
    Cast-joined_by ms pd chain [] k some_answer h = cast_all
    Cast-joined_by ms pd chain (peer ∷ peers) k some_answer h =
        let rest = Cast-joined_by ms pd chain peers (k + 1) some_answer h.1 in
        elim (Bool-cases (text_eq peer pd)) [
          | inl self ↦ cast_self self rest
          | inr other ↦ elim h.0 [
            | inl self ↦ absurd (both self other)
            | inr found ↦
                cast_answer other (member_answers ms k peer found.0 chain found.1 found.2)
                  some_answer fits rest
          ]
        ]

  -- Each listed peer is the sender itself or a member that is prepared for the block.
  abbrev pub AllPrepared :
      List (Member e) → Bytes → BlockRow → List BlockRow → Bytes → List Bytes → Type 0
  AllPrepared ms pd b bs body peers =
      All
        (λ peer.
          (text_eq peer pd ≡ true)
          ⊎ ((m : Member e) × (member_at e peer ms ≡ some m)
              × Prepared e q md5 base64_decode limit sender b bs body m))
        peers

  pub AllPrepared-Reached :
      (ms : List (Member e)) (pd : Bytes) (b : BlockRow) (bs : List BlockRow) (body : Bytes)
      (peers : List Bytes)
      → IsChain md5 (b ∷ bs)
      → NoNul body
      → length (b ∷ bs) + 1 < limit
      → length (to_string (pos (length (b ∷ bs) + 1)))
          + length (last_hash b.transaction_hash bs)
          + 1
        < buf_size
      → AllPrepared ms pd b bs body peers
      → Reached ms pd (next_text b bs body) (grown_chain md5 b bs body) peers
  AllPrepared-Reached ms pd b bs body [] h clean room small all = tt
  AllPrepared-Reached ms pd b bs body (peer ∷ peers) h clean room small (inl self, all) =
      (inl self, AllPrepared-Reached ms pd b bs body peers h clean room small all)
  AllPrepared-Reached ms pd b bs body (peer ∷ peers) h clean room small (inr found, all) = (
    inr (
      found.0,
      found.1,
      Prepared-TakesIn e q md5 base64_decode limit sender b bs body found.0 h clean room small
          found.2,
    ),
    AllPrepared-Reached ms pd b bs body peers h clean room small all,
  )
