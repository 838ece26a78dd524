-- ===== src/Connection/Served.antt =====
-- A whole connection to a server of a node (bcm-linux-console/Cpp_part.cpp,
-- send_message_server_part_function_i2pd and hash_and_blockchain_server_part_function_i2pd).
use blockchain_crypto_messan.Common.{
  ℕ, ◌+◌, ◌*◌, ◌^◌, ◌≤◌, ◌<◌, ◌≡◌, refl, false, none, some, List, [], ◌∷◌, ◌++◌, length, text_eq,
}
use blockchain_crypto_messan.Common.Int.{ℤ, pos}
use blockchain_crypto_messan.Text.{Bytes, NoNul, c_str}
use blockchain_crypto_messan.Text.Decimal.{to_string}
use blockchain_crypto_messan.Program.{returned, fault, ◌>>=◌}
use blockchain_crypto_messan.Sql.{BlockRow}
use blockchain_crypto_messan.Sql.Engine.{Engine, IsSqlite, World, Node, Runs, Runs-pure, Runs-bind}
use blockchain_crypto_messan.Keys.{buf_size}
use blockchain_crypto_messan.Decrypt.Roster.{Peer}
use blockchain_crypto_messan.Chain.Links.{IsChain, last_hash, next_block}
use blockchain_crypto_messan.Chain.Import.{with_blocks}
use blockchain_crypto_messan.Analysis.Wrappers.{Roster, with_cursor}
use blockchain_crypto_messan.Analysis.Cursor.{Foreign}
use blockchain_crypto_messan.Wire.{FourBytes, Stream, piece_size}
use blockchain_crypto_messan.Wire.Pieces.{FullSpeed}
use blockchain_crypto_messan.Export.{answer_request}
use blockchain_crypto_messan.Server.{answer_announcement}
use blockchain_crypto_messan.Server.Accepted.{grown_chain}
use blockchain_crypto_messan.Server.Agreement.{next_text}
use blockchain_crypto_messan.Server.Answers.{answer_announcement-accepts}
use blockchain_crypto_messan.Connection.{public_key_length, serve_announcement, serve_request}
use blockchain_crypto_messan.Connection.Line.{
  OneLine, Steady, dest-other, read_dest-Steady, read_dest-OneLine,
}
use blockchain_crypto_messan.Connection.Size.{
  sized, read_announced-sized, read_request-sized, read_request-halves,
}

-- A connection from a peer with the destination `dest`, on which `text` is sent behind its size.
abbrev pub connection : Bytes → Bytes → List ℕ → Stream
connection dest text amounts = record { arriving = dest ++ 10 ∷ sized text; amounts = amounts }

-- The destination comes byte by byte.
pub record Introduced (dest : Bytes) (ones : List ℕ) : Type 0 where
  pub clean : NoNul dest
  pub line : OneLine dest
  pub steady : Steady ones
  pub bytes : length ones ≡ length dest + 1
  pub short : length dest + 2 < public_key_length

module _ (e : Engine) (another_dest_ch : ℕ → ℕ) where
  -- What is taken for the destination.
  abbrev pub taken : Bytes → Bytes
  taken dest = c_str ((dest ++ 10 ∷ []) ++ another_dest_ch (length dest + 1) ∷ 0 ∷ [])

  -- A request below 2^31 bytes that comes at full speed, its size at once, behind a destination in
  -- one line without NUL, below 548 bytes, is answered as the request that was sent, whatever that
  -- destination is.
  pub serve_request-answers :
      (dest text : Bytes) (ones : List ℕ) (a : ℕ) (rs : List ℕ) (w : World e)
      → Introduced dest ones
      → length text < 2 ^ 31
      → 4 ≤ a
      → FullSpeed rs
      → length text ≤ piece_size * length rs
      → serve_request e another_dest_ch (connection dest text (ones ++ a ∷ rs)) w
        ≡ answer_request e text w
  unfolding serve_request ◌>>=◌
  serve_request-answers dest text ones a rs w i small whole full room =
      rw
        (
          read_dest-Steady another_dest_ch dest (sized text) ones (a ∷ rs) i.clean i.line i.steady
              i.bytes i.short,
          read_request-sized text a rs small whole full room,
        )
        refl

  -- A request below 2^16 bytes, behind a destination in one line without NUL, below 548 bytes, of
  -- which the size comes in two halves, gets no answer, and the node is as it was.
  pub serve_request-halves :
      (dest text : Bytes) (ones rs : List ℕ) (w : World e)
      → Introduced dest ones
      → length text < 2 ^ 16
      → serve_request e another_dest_ch (connection dest text (ones ++ 2 ∷ 2 ∷ rs)) w
        ≡ (returned none, w)
  unfolding serve_request ◌>>=◌ answer_request text_eq c_str
  serve_request-halves dest text ones rs w i small =
      rw
        (
          read_dest-Steady another_dest_ch dest (sized text) ones (2 ∷ 2 ∷ rs) i.clean i.line
              i.steady i.bytes i.short,
          read_request-halves text rs small,
        )
        refl

  -- A peer that closes the connection before the end of the line makes either server write behind
  -- an array, whatever has come and in whatever pieces.
  pub serve-closed :
      (s : Stream) (md5 base64_decode : Bytes → Bytes) (limit : ℤ) (my_name : Bytes)
      (clock : ℤ → Bytes) (my_public : Bytes) (buf_int : FourBytes) (w : World e)
      → OneLine s.arriving
      → (serve_request e another_dest_ch s w ≡ (fault, w))
        × (serve_announcement e another_dest_ch md5 limit base64_decode my_name clock my_public
              buf_int s w
            ≡ (fault, w))
  unfolding serve_request serve_announcement ◌>>=◌
  serve-closed s md5 base64_decode limit my_name clock my_public buf_int w line =
      let over = read_dest-OneLine another_dest_ch s line in (rw over refl, rw over refl)

  module _ (q : IsSqlite e) (md5 base64_decode : Bytes → Bytes) (limit : ℕ) (my_name : Bytes)
      (clock : ℤ → Bytes) where
    -- An announcement over a connection is answered as one from the destination that is read.
    pub serve_announcement-Runs :
        (n m : Node) (dest text my_public answer : Bytes) (buf_int : FourBytes) (ones : List ℕ)
        (a : ℕ) (rs : List ℕ)
        → Introduced dest ones
        → length text < 2 ^ 31
        → 4 ≤ a
        → FullSpeed rs
        → length text ≤ piece_size * length rs
        → Runs e q
            (answer_announcement e md5
              (pos limit)
              base64_decode
              my_name
              clock
              (taken dest)
              my_public
              text)
            n
            answer
            m
        → Runs e q
            (serve_announcement e another_dest_ch md5
              (pos limit)
              base64_decode
              my_name
              clock
              my_public
              buf_int
              (connection dest text (ones ++ a ∷ rs)))
            n
            (some answer)
            m
    unfolding serve_announcement
    serve_announcement-Runs n m dest text my_public answer buf_int ones a rs i small whole full room
          run =
        let other : text_eq (taken dest) [] ≡ false = dest-other dest _ [] i.clean tt in
        rw
          (read_dest-Steady another_dest_ch dest (sized text) ones (a ∷ rs) i.clean i.line i.steady
            i.bytes i.short)
          (Runs-bind e q _ (Runs-pure e q _ n) (
            rw (other, read_announced-sized text a rs small whole full room buf_int)
              (Runs-bind e q _ (Runs-pure e q _ n) (Runs-bind e q _ run (Runs-pure e q _ m)))))

    -- An announcement of the next block, its number and hash before within their buffer, comes
    -- over a connection at full speed, below 2^31 bytes and its size at once, behind a destination
    -- in one line without NUL, below 548 bytes, which may be that of this node, whose own has no
    -- end of line. If no key of this node, of ten correspondents at most, opens its message, which
    -- has no NUL, and the node has analysed its chain and stays below the limit, then it is
    -- answered by its own text; the block is appended with its hash, and the cursor is on it.
    pub serve_announcement-accepts :
        (n : Node) (peers : List Peer) (b : BlockRow) (bs : List BlockRow)
        (dest message my_public : Bytes) (buf_int : FourBytes) (ones : List ℕ) (a : ℕ) (rs : List ℕ)
        → Introduced dest ones
        → OneLine my_public
        → length (next_text b bs message) < 2 ^ 31
        → 4 ≤ a
        → FullSpeed rs
        → length (next_text b bs message) ≤ piece_size * length rs
        → n.blockchain ≡ b ∷ bs
        → IsChain md5 (b ∷ bs)
        → n.last_analysed_id ≡ pos (length (b ∷ bs))
        → Roster e q n peers
        → Foreign e q base64_decode my_name clock n peers (next_block md5 (b ∷ bs) message)
        → length (b ∷ bs) + 1 < limit
        → length (to_string (pos (length (b ∷ bs) + 1)))
            + length (last_hash b.transaction_hash bs)
            + 1
          < buf_size
        → Runs e q
            (serve_announcement e another_dest_ch md5
              (pos limit)
              base64_decode
              my_name
              clock
              my_public
              buf_int
              (connection dest (next_text b bs message) (ones ++ a ∷ rs)))
            n
            (some (next_text b bs message))
            (with_cursor (with_blocks n (grown_chain md5 b bs message)) (pos (length (b ∷ bs) + 1)))
    serve_announcement-accepts n peers b bs dest message my_public buf_int ones a rs i own small
          whole full room is h cursor roster foreign below fits =
        serve_announcement-Runs n _ dest (next_text b bs message) my_public _ buf_int ones a rs i
          small whole full room
          (answer_announcement-accepts e q md5 base64_decode limit my_name clock n peers b bs
            message (taken dest) my_public is h cursor roster foreign below
            (dest-other dest _ my_public i.clean own) fits)
