-- ===== src/Wire.antt =====
-- How nodes exchange data over a stream of I2P: four bytes with the size, little end first, and the
-- data, which is written and read in pieces of at most 512 bytes (bcm-linux-console/C_part.c,
-- bcm-linux-console/Cpp_part.cpp); and the client that asks a peer for its last hash or its chain.
pub mod Numbers
pub mod Pieces
pub mod Client
use blockchain_crypto_messan.Common.{
  ℕ, zero, suc, ◌+◌, ◌-◌, ◌*◌, ◌/◌, ◌%◌, ◌^◌, Bool, ◌&&◌, ◌||◌, List, [], ◌∷◌, ◌++◌, Option, none,
  some, length, take, drop, ltb, leb, ◌==◌, if◌then◌else◌,
}
use blockchain_crypto_messan.Common.Int.{ℤ, pos, negsuc}
use blockchain_crypto_messan.Text.{Bytes, c_str}
use blockchain_crypto_messan.Program.{Outcome, returned, exited, fault, blocked}

-- An array of INT_SIZE bytes.
pub record FourBytes : Type 0 where
  pub first : ℕ
  pub second : ℕ
  pub third : ℕ
  pub fourth : ℕ

unfoldable pub int_to_unsigned_char_array_4 : ℕ → FourBytes
int_to_unsigned_char_array_4 digit = record {
  first = digit % 256;
  second = digit / 2 ^ 8 % 256;
  third = digit / 2 ^ 16 % 256;
  fourth = digit / 2 ^ 24 % 256;
}

-- The `int` with the bits of an `unsigned int`.
unfoldable pub as_int : ℕ → ℤ
as_int n = if ltb n (2 ^ 31) then pos n else negsuc (2 ^ 32 - 1 - n)

-- `I <<= 8; I |= b`: the low byte is free, so the bytes are added.
unfoldable pub shifted_in : ℕ → ℕ → ℕ
shifted_in n b = n * 2 ^ 8 % 2 ^ 32 + b

unfoldable pub unsigned_char_array_4_to_int : FourBytes → ℤ
unfolding as_int shifted_in
unsigned_char_array_4_to_int b =
    as_int (shifted_in (shifted_in (shifted_in b.fourth b.third) b.second) b.first)

abbrev pub piece_size : ℕ
piece_size = 512

-- The pieces in which `file_size_yet` bytes are read from the file and written to the socket.
unfoldable pub sent_pieces : ℕ → Bytes → List Bytes
sent_pieces zero bytes = []
sent_pieces (suc rounds) bytes =
    let numread = if ltb (length bytes) piece_size then length bytes else piece_size in
    let rest = sent_pieces rounds (drop numread bytes) in
    if length bytes == 0 then [] else take numread bytes ∷ rest

-- The bytes still to come from the peer, and how many of them have arrived at each `recv`: none,
-- or no further number, is a closed connection, which makes `read` return a negative number.
pub record Stream : Type 0 where
  pub arriving : Bytes
  pub amounts : List ℕ

abbrev pub read_size : ℕ → ℕ → Bytes → ℕ
read_size bytes arrived arriving =
    let have = length (take arrived arriving) in if ltb have bytes then have else bytes

-- The last piece is read at once, or the process ends.
unfoldable pub receive_last : ℕ → Bytes → Bytes → List ℕ → Outcome Bytes
receive_last inverse_size_have got arriving [] = exited
receive_last inverse_size_have got arriving (arrived ∷ amounts) =
    if read_size inverse_size_have arrived arriving == inverse_size_have
    then returned (got ++ take inverse_size_have arriving)
    else exited

-- `while (recieved_total != data_size)`. After a failed read `fwrite` gets a size of -1 cast to
-- `size_t`, and a piece may be longer than what is left of the array.
unfoldable pub receive : ℕ → Bytes → Bytes → List ℕ → Outcome Bytes
unfolding receive_last
receive data_size got arriving [] = if length got == data_size then returned got else fault
receive data_size got arriving (arrived ∷ amounts) =
    let recv_bytes = read_size piece_size arrived arriving in
    let received = got ++ take recv_bytes arriving in
    let inverse_size_have = data_size - (length got + recv_bytes) in
    let rest = receive data_size received (drop recv_bytes arriving) amounts in
    if length got == data_size
    then returned got
    else if recv_bytes == 0
    then fault
    else if ltb data_size (length got + recv_bytes)
    then fault
    else if ltb inverse_size_have piece_size && ltb 0 inverse_size_have
    then receive_last inverse_size_have received (drop recv_bytes arriving) amounts
    else rest

-- `unsigned char indata [data_size]`
unfoldable pub receive_sized : ℤ → Stream → Outcome Bytes
receive_sized (pos data_size) s = receive data_size [] s.arriving s.amounts
receive_sized (negsuc n) s = fault

pub data Request : Type 0 where
  hash blockchain : Request
  message : Bytes → Request

-- "get_last_id_hesh\n"
abbrev pub get_last_id_hesh : Bytes
get_last_id_hesh =
    b'g' ∷ b'e' ∷ b't' ∷ b'_' ∷ b'l' ∷ b'a' ∷ b's' ∷ b't' ∷ b'_' ∷ b'i' ∷ b'd' ∷ b'_' ∷ b'h' ∷ b'e'
    ∷ b's' ∷ b'h' ∷ 10 ∷ []

-- "get_actual_blockchain\n"
abbrev pub get_actual_blockchain : Bytes
get_actual_blockchain =
    b'g' ∷ b'e' ∷ b't' ∷ b'_' ∷ b'a' ∷ b'c' ∷ b't' ∷ b'u' ∷ b'a' ∷ b'l' ∷ b'_' ∷ b'b' ∷ b'l' ∷ b'o'
    ∷ b'c' ∷ b'k' ∷ b'c' ∷ b'h' ∷ b'a' ∷ b'i' ∷ b'n' ∷ 10 ∷ []

unfoldable pub requested : Request → Bytes
unfolding c_str
requested hash = get_last_id_hesh
requested blockchain = get_actual_blockchain
requested (message text) = c_str text

-- "No_response_"
abbrev pub no_response_ : Bytes
no_response_ =
    b'N' ∷ b'o' ∷ b'_' ∷ b'r' ∷ b'e' ∷ b's' ∷ b'p' ∷ b'o' ∷ b'n' ∷ b's' ∷ b'e' ∷ b'_' ∷ []

unfoldable pub no_response : Request → Bytes
no_response hash = no_response_ ++ b'h' ∷ b'a' ∷ b's' ∷ b'h' ∷ []
no_response blockchain =
    no_response_ ++ b'b' ∷ b'l' ∷ b'o' ∷ b'c' ∷ b'k' ∷ b'c' ∷ b'h' ∷ b'a' ∷ b'i' ∷ b'n' ∷ []
no_response (message text) = no_response_ ++ b'm' ∷ b'e' ∷ b's' ∷ b's' ∷ b'a' ∷ b'g' ∷ b'e' ∷ []

-- What the network does with one call: whether each `connect` succeeds, the size that is read
-- within the time limit, and the data.
pub record Call : Type 0 where
  pub connects : ℕ → Bool
  pub reply_size : Option FourBytes
  pub reply : Stream

-- MAX_COUNT_CONNECT
abbrev pub max_count_connect : ℕ
max_count_connect = 1

-- The first attempt, and the repeated ones.
unfoldable pub connected : ℕ → ℕ → (ℕ → Bool) → Bool
connected count_connect zero connects = connects count_connect
connected count_connect (suc left) connects =
    connects count_connect || connected (count_connect + 1) left connects

-- `strncpy(buffer, buffer_data_real, data_size)` into a zero-filled buffer.
unfoldable pub to_buffer : ℕ → Outcome Bytes → Outcome Bytes
unfolding c_str
to_buffer capacity (returned bytes) =
    if ltb capacity (length bytes) then fault else returned (c_str bytes)
to_buffer capacity exited = exited
to_buffer capacity fault = fault
to_buffer capacity blocked = blocked

unfoldable pub answered : ℕ → Request → Option FourBytes → Stream → Outcome Bytes
unfolding to_buffer receive_sized
answered capacity hash_or_blockchain none reply = returned (no_response hash_or_blockchain)
answered capacity hash_or_blockchain (some size) reply =
    to_buffer capacity (receive_sized (unsigned_char_array_4_to_int size) reply)

-- What the call leaves in a buffer of `capacity` bytes.
unfoldable pub get_hash_or_blockchain_i2pd : ℕ → Request → Call → Outcome Bytes
unfolding answered connected
get_hash_or_blockchain_i2pd capacity hash_or_blockchain call =
    if connected 0 max_count_connect call.connects
    then answered capacity hash_or_blockchain call.reply_size call.reply
    else returned (no_response hash_or_blockchain)
