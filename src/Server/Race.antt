-- ===== src/Server/Race.antt =====
-- Two announcements of the same next block (bcm-linux-console/Cpp_part.cpp,
-- send_message_server_part_function_i2pd): the second comes too late.
use blockchain_crypto_messan.Common.{
  ℕ, ◌+◌, ◌<◌, ◌≡◌, refl, sym, subst, false, List, [], ◌∷◌, ◌++◌, length, arith, length-append,
  text_eq,
}
use blockchain_crypto_messan.Common.Int.{ℤ, pos, ◌-ℤ◌}
use blockchain_crypto_messan.Text.{Bytes, NoNul}
use blockchain_crypto_messan.Text.Decimal.{to_string}
use blockchain_crypto_messan.Program.{Exec, pure, ◌>>=◌}
use blockchain_crypto_messan.Sql.{BlockRow, same_int}
use blockchain_crypto_messan.Sql.Engine.{Engine, IsSqlite, World, Node, Runs, Runs-pure, Runs-bind}
use blockchain_crypto_messan.Keys.{buf_size}
use blockchain_crypto_messan.Decrypt.Roster.{Peer}
use blockchain_crypto_messan.Chain.Links.{
  IsChain, last_hash, next_block, next_block-IsChain, last_hash-IsField,
}
use blockchain_crypto_messan.Chain.Import.{with_blocks}
use blockchain_crypto_messan.Analysis.Wrappers.{with_cursor, Roster}
use blockchain_crypto_messan.Analysis.Cursor.{Foreign}
use blockchain_crypto_messan.Server.{answer_announcement}
use blockchain_crypto_messan.Server.Agreement.{next_text}
use blockchain_crypto_messan.Server.Answers.{
  answer_announcement-accepts, answer_announcement-refuses,
}

late_number : (k : ℕ) → same_int (pos (k + 1) -ℤ pos 1) (pos (k + 1)) ≡ false
unfolding ◌-ℤ◌
late_number k = ground arith

module _ (e : Engine) (q : IsSqlite e) (md5 base64_decode : Bytes → Bytes) (limit : ℕ)
    (my_name : Bytes) (clock : ℤ → Bytes) where
  abbrev pub answer : Bytes → Bytes → Bytes → Exec (World e) Bytes
  answer another_dest my_public buffer =
      answer_announcement e md5 (pos limit) base64_decode my_name clock another_dest my_public
        buffer

  -- A node whose chain has one block more refuses.
  late :
      (n : Node) (b : BlockRow) (bs : List BlockRow) (first second another_dest my_public : Bytes)
      → n.blockchain ≡ (b ∷ bs) ++ next_block md5 (b ∷ bs) first ∷ []
      → IsChain md5 (b ∷ bs)
      → NoNul first
      → NoNul second
      → length (to_string (pos (length (b ∷ bs) + 1)))
          + length (last_hash b.transaction_hash bs)
          + 1
        < buf_size
      → Runs e q (answer another_dest my_public (next_text b bs second)) n (78 ∷ 79 ∷ []) n
  late n b [] first second another_dest my_public is h clean clean' fits =
      answer_announcement-refuses e q md5 base64_decode limit my_name clock n b
        (next_block md5 (b ∷ []) first) [] 2 b.transaction_hash second another_dest my_public is
        (next_block-IsChain md5 (b ∷ []) first h clean) (rw (late_number 1) refl)
        (last_hash-IsField md5 b [] h) clean' fits
  late n b (c ∷ bs) first second another_dest my_public is h clean clean' fits =
      let new : BlockRow = next_block md5 (b ∷ c ∷ bs) first in
      let size : length ((b ∷ c ∷ bs) ++ new ∷ []) ≡ length (b ∷ c ∷ bs) + 1 =
        length-append (b ∷ c ∷ bs) (new ∷ []) in
      let another : same_int (pos (length (b ∷ c ∷ bs) + 1) -ℤ pos 1)
            (pos (length ((b ∷ c ∷ bs) ++ new ∷ [])))
          ≡ false =
        subst (λ k. same_int (pos (length (b ∷ c ∷ bs) + 1) -ℤ pos 1) (pos k) ≡ false) (sym size)
          (late_number (length (b ∷ c ∷ bs))) in
      answer_announcement-refuses e q md5 base64_decode limit my_name clock n b c (bs ++ new ∷ [])
        (length (b ∷ c ∷ bs) + 1) (last_hash b.transaction_hash (c ∷ bs)) second another_dest
        my_public is (next_block-IsChain md5 (b ∷ c ∷ bs) first h clean) (rw another refl)
        (last_hash-IsField md5 b (c ∷ bs) h) clean' fits

  -- Of two announcements of a next block behind the same last block, from other nodes and with
  -- messages that no key of this node opens, a node below the limit that has analysed its chain takes
  -- the first and answers the second by "NO"; it has one block more, that of the first.
  pub answer_announcement-twice :
      (n : Node) (peers : List Peer) (b : BlockRow) (bs : List BlockRow)
      (first second dest_1 dest_2 my_public : Bytes)
      → n.blockchain ≡ b ∷ bs
      → IsChain md5 (b ∷ bs)
      → n.last_analysed_id ≡ pos (length (b ∷ bs))
      → Roster e q n peers
      → Foreign e q base64_decode my_name clock n peers (next_block md5 (b ∷ bs) first)
      → NoNul second
      → length (b ∷ bs) + 1 < limit
      → text_eq dest_1 my_public ≡ false
      → length (to_string (pos (length (b ∷ bs) + 1)))
          + length (last_hash b.transaction_hash bs)
          + 1
        < buf_size
      → Runs e q {A = Bytes × Bytes}
          (do
            reply_1 ← answer dest_1 my_public (next_text b bs first)
            reply_2 ← answer dest_2 my_public (next_text b bs second)
            pure (reply_1, reply_2))
          n
          (next_text b bs first, 78 ∷ 79 ∷ [])
          (with_cursor
            (with_blocks n ((b ∷ bs) ++ next_block md5 (b ∷ bs) first ∷ []))
            (pos (length (b ∷ bs) + 1)))
  answer_announcement-twice n peers b bs first second dest_1 dest_2 my_public is h cursor roster
        foreign clean room other fits =
      Runs-bind e q _
        (answer_announcement-accepts e q md5 base64_decode limit my_name clock n peers b bs first
          dest_1 my_public is h cursor roster foreign room other fits)
        (Runs-bind e q _ (late _ b bs first second dest_2 my_public refl h foreign.0 clean fits)
          (Runs-pure e q _ _))
