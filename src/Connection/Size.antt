-- ===== src/Connection/Size.antt =====
-- The size in front of the data on a connection, and the data (bcm-linux-console/Cpp_part.cpp).
use blockchain_crypto_messan.Common.{
  ℕ, ◌+◌, ◌*◌, ◌^◌, ◌/◌, ◌%◌, ◌≤◌, ◌<◌, ◌≡◌, refl, ap, ◌∙◌, List, [], ◌∷◌, ◌++◌, arith, length,
  le-length-take,
}
use blockchain_crypto_messan.Common.Int.{pos, ◌+ℤ◌}
use blockchain_crypto_messan.Text.{Bytes}
use blockchain_crypto_messan.Program.{returned}
use blockchain_crypto_messan.Wire.{
  FourBytes, piece_size, read_size, receive, receive_sized, sent_pieces,
  int_to_unsigned_char_array_4, unsigned_char_array_4_to_int, as_int, shifted_in,
}
use blockchain_crypto_messan.Wire.Pieces.{FullSpeed, join, receive_sized-sent}
use blockchain_crypto_messan.Server.{followed}
use blockchain_crypto_messan.Connection.{
  zero_bytes, read_int, read_int_again, data_of, read_announced, read_request,
}

abbrev pub four_bytes : FourBytes → Bytes
four_bytes b = b.first ∷ b.second ∷ b.third ∷ b.fourth ∷ []

-- What the client writes: the size of the text, and the text in pieces.
abbrev pub sized : Bytes → Bytes
sized text =
    four_bytes (int_to_unsigned_char_array_4 (length text))
    ++ join (sent_pieces (length text + 1) text)

four_arrive : (b : FourBytes) (s : Bytes) (a : ℕ) → 4 ≤ a → read_size 4 a (four_bytes b ++ s) ≡ 4
four_arrive b s a h = ground (arith, le-length-take 4 a (four_bytes b ++ s) h (omega arith))

pub read_int-whole :
    (buf b : FourBytes) (s : Bytes) (a : ℕ) (rs : List ℕ)
    → 4 ≤ a
    → read_int buf (four_bytes b ++ s) (a ∷ rs) ≡ (b, record { arriving = s; amounts = rs })
unfolding read_int
read_int-whole buf b s a rs h = rw (four_arrive b s a h) refl

four_read :
    (b : FourBytes) (s : Bytes) (rs : List ℕ)
    → read_int_again (pos 4) b s rs ≡ returned (b, record { arriving = s; amounts = rs })
unfolding read_int_again
four_read b s [] = refl
four_read b s (a ∷ rs) = refl

pub read_int_again-whole :
    (b : FourBytes) (s : Bytes) (a : ℕ) (rs : List ℕ)
    → 4 ≤ a
    → read_int_again (pos 0) zero_bytes (four_bytes b ++ s) (a ∷ rs)
      ≡ returned (b, record { arriving = s; amounts = rs })
unfolding read_int_again ◌+ℤ◌
read_int_again-whole b s a rs h = rw (four_arrive b s a h) (four_read b s rs)

-- Of a size that comes in two halves the second half stands in the place of the first.
read_int_again-halves :
    (b : FourBytes) (s : Bytes) (rs : List ℕ)
    → read_int_again (pos 0) zero_bytes (four_bytes b ++ s) (2 ∷ 2 ∷ rs)
      ≡ returned (
        record { first = b.third; second = b.fourth; third = 0; fourth = 0 },
        record { arriving = s; amounts = rs },
      )
unfolding read_int_again ◌+ℤ◌
read_int_again-halves b s rs = four_read _ s rs

module _ (text : Bytes) (a : ℕ) (rs : List ℕ) (small : length text < 2 ^ 31) (whole : 4 ≤ a)
    (full : FullSpeed rs) (room : length text ≤ piece_size * length rs) where
  -- What is announced over a connection arrives, if the size comes at once.
  pub read_announced-sized :
      (buf : FourBytes)
      → read_announced buf (record { arriving = sized text; amounts = a ∷ rs }) ≡ returned text
  unfolding read_announced
  read_announced-sized buf =
      ap data_of (read_int-whole buf _ _ a rs whole) ∙ receive_sized-sent text rs small full room

  pub read_request-sized :
      read_request (record { arriving = sized text; amounts = a ∷ rs }) ≡ returned text
  unfolding read_request
  read_request-sized =
      ap (followed data_of) (read_int_again-whole _ _ a rs whole)
      ∙ receive_sized-sent text rs small full room

upper_zero : (n : ℕ) → n < 2 ^ 16 → (n / 2 ^ 16 % 256 ≡ 0) × (n / 2 ^ 24 % 256 ≡ 0)
upper_zero n small = (omega arith, omega arith)

upper_half :
    (n : ℕ)
    → n < 2 ^ 16
    → unsigned_char_array_4_to_int (record {
      first = (int_to_unsigned_char_array_4 n).third;
      second = (int_to_unsigned_char_array_4 n).fourth;
      third = 0;
      fourth = 0;
    })
      ≡ pos 0
unfolding unsigned_char_array_4_to_int int_to_unsigned_char_array_4 shifted_in as_int
upper_half n small = rw ((upper_zero n small).0, (upper_zero n small).1) refl

nothing_asked :
    (s : Bytes) (rs : List ℕ)
    → receive_sized (pos 0) (record { arriving = s; amounts = rs }) ≡ returned []
unfolding receive_sized receive
nothing_asked s [] = refl
nothing_asked s (a ∷ rs) = refl

-- A request below 2 ^ 16 bytes of which the size comes in two halves is read as an empty one.
pub read_request-halves :
    (text : Bytes) (rs : List ℕ)
    → length text < 2 ^ 16
    → read_request (record { arriving = sized text; amounts = 2 ∷ 2 ∷ rs }) ≡ returned []
unfolding read_request
read_request-halves text rs small =
    ap (followed data_of) (read_int_again-halves _ (join (sent_pieces (length text + 1) text)) rs)
    ∙ rw (upper_half (length text) small) (nothing_asked _ rs)
