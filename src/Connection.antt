-- ===== src/Connection.antt =====
-- What the two servers of a node read from a connection, and what they do with it
-- (bcm-linux-console/Cpp_part.cpp, send_message_server_part_function_i2pd and
-- hash_and_blockchain_server_part_function_i2pd): a line with the destination of the peer, which the
-- router puts in front, four bytes with a size, and the data. The file that the data pass through is
-- left out, and so is the repeated accepting of connections.
pub mod Line
pub mod Served
pub mod Size
use blockchain_crypto_messan.Common.{
  ℕ, zero, suc, ◌+◌, List, [], ◌∷◌, ◌++◌, Option, none, some, length, take, drop, get_or, leb, ◌==◌,
  text_eq, if◌then◌else◌,
}
use blockchain_crypto_messan.Common.Int.{ℤ, pos, negsuc, ◌+ℤ◌, leb_ℤ}
use blockchain_crypto_messan.Text.{Bytes, c_str}
use blockchain_crypto_messan.Program.{Outcome, returned, fault, blocked, Exec, pure, ◌>>=◌}
use blockchain_crypto_messan.Sql.Engine.{Engine, World}
use blockchain_crypto_messan.Wire.{
  FourBytes, Stream, read_size, receive_sized, unsigned_char_array_4_to_int,
}
use blockchain_crypto_messan.Vote.{ended}
use blockchain_crypto_messan.Export.{answer_request}
use blockchain_crypto_messan.Sql.{same_int}
use blockchain_crypto_messan.Server.{followed, answer_announcement}

-- PUBLIC_KEY_LENGTH
abbrev pub public_key_length : ℕ
public_key_length = 550

-- `read(1, &ch[0])` into a zero byte.
unfoldable pub read_byte : Bytes → List ℕ → ℕ × Stream
read_byte arriving [] = (0, record { arriving = arriving; amounts = [] })
read_byte arriving (arrived ∷ amounts) =
    let one = read_size 1 arrived arriving in
    (get_or (take one arriving) 0 0, record { arriving = drop one arriving; amounts = amounts })

-- The loop up to the end of the line, with the places that are left in `another_dest_ch`; a closed
-- connection goes on giving zero bytes.
unfoldable pub read_line : ℕ → Bytes → Bytes → List ℕ → Outcome (Bytes × Stream)
read_line zero got arriving amounts = fault
read_line (suc left) got arriving amounts =
    let ch = read_byte arriving amounts in
    let rest = read_line left (got ++ ch.0 ∷ []) ch.1.arriving ch.1.amounts in
    if ch.0 == 10 then returned (got ++ 10 ∷ [], ch.1) else rest

-- `recieve_len` is counted up twice before the NUL is written, so that one byte of the array stays
-- between the line and it.
abbrev pub ended_line : (ℕ → ℕ) → Bytes × Stream → Outcome (Bytes × Stream)
ended_line another_dest_ch line =
    if leb public_key_length (length line.0 + 1)
    then fault
    else returned (c_str (line.0 ++ another_dest_ch (length line.0) ∷ 0 ∷ []), line.1)

unfoldable pub read_dest : (ℕ → ℕ) → Stream → Outcome (Bytes × Stream)
unfolding c_str
read_dest another_dest_ch s =
    followed (ended_line another_dest_ch) (read_line public_key_length [] s.arriving s.amounts)

-- The first bytes of an array of four, overwritten.
abbrev pub overwritten : FourBytes → Bytes → FourBytes
overwritten buf_int bytes = record {
  first = get_or bytes 0 buf_int.first;
  second = get_or bytes 1 buf_int.second;
  third = get_or bytes 2 buf_int.third;
  fourth = get_or bytes 3 buf_int.fourth;
}

-- One `read(INT_SIZE, buf_int)`
unfoldable pub read_int : FourBytes → Bytes → List ℕ → FourBytes × Stream
read_int buf_int arriving [] = (buf_int, record { arriving = arriving; amounts = [] })
read_int buf_int arriving (arrived ∷ amounts) =
    let res = read_size 4 arrived arriving in
    (
      overwritten buf_int (take res arriving),
      record { arriving = drop res arriving; amounts = amounts },
    )

-- What `read` returns: a negative number for a closed connection.
abbrev pub read_result : ℕ → ℤ
read_result res = if res == 0 then negsuc 0 else pos res

-- `while (res_rec != INT_SIZE)`: each round reads to the start of the array. On a closed connection
-- `res_rec` is counted down.
unfoldable pub read_int_again : ℤ → FourBytes → Bytes → List ℕ → Outcome (FourBytes × Stream)
read_int_again res_rec buf_int arriving [] =
    if leb_ℤ (pos 4) res_rec
    then returned (buf_int, record { arriving = arriving; amounts = [] })
    else blocked
read_int_again res_rec buf_int arriving (arrived ∷ amounts) =
    let res = read_size 4 arrived arriving in
    let rest =
      read_int_again (res_rec +ℤ read_result res) (overwritten buf_int (take res arriving))
        (drop res arriving) amounts in
    if same_int res_rec (pos 4)
    then returned (buf_int, record { arriving = arriving; amounts = arrived ∷ amounts })
    else rest

abbrev pub data_of : FourBytes × Stream → Outcome Bytes
data_of sized = receive_sized (unsigned_char_array_4_to_int sized.0) sized.1

abbrev pub zero_bytes : FourBytes
zero_bytes = record { first = 0; second = 0; third = 0; fourth = 0 }

-- What is announced; `buf_int` is not cleared.
unfoldable pub read_announced : FourBytes → Stream → Outcome Bytes
unfolding receive_sized
read_announced buf_int s = data_of (read_int buf_int s.arriving s.amounts)

-- What is asked for.
unfoldable pub read_request : Stream → Outcome Bytes
unfolding receive_sized
read_request s = followed data_of (read_int_again (pos 0) zero_bytes s.arriving s.amounts)

module _ (e : Engine) (another_dest_ch : ℕ → ℕ) where
  module _ (md5 : Bytes → Bytes) (limit : ℤ) (base64_decode : Bytes → Bytes) (my_name : Bytes)
      (clock : ℤ → Bytes) (my_public_send_message : Bytes) where
    -- The thread ends with an empty destination, without an answer.
    abbrev pub heard : FourBytes → Bytes × Stream → Exec (World e) (Option Bytes)
    heard buf_int line = if text_eq line.0 [] then pure none else (do
      buffer ← ended e (read_announced buf_int line.1)
      answer ←
          answer_announcement e md5 limit base64_decode my_name clock line.0 my_public_send_message
            buffer
      pure (some answer))

    -- One connection of send_message_server_part_function_i2pd, with the answer.
    unfoldable pub serve_announcement : FourBytes → Stream → Exec (World e) (Option Bytes)
    serve_announcement buf_int s = do
      line ← ended e (read_dest another_dest_ch s)
      heard buf_int line

  -- One connection of hash_and_blockchain_server_part_function_i2pd, with the answer.
  unfoldable pub serve_request : Stream → Exec (World e) (Option Bytes)
  serve_request s = do
    line ← ended e (read_dest another_dest_ch s)
    buffer ← ended e (read_request line.1)
    answer_request e buffer
