-- ===== src/Wire/Client.antt =====
-- What `get_hash_or_blockchain_i2pd` (bcm-linux-console/Cpp_part.cpp) leaves in the buffer.
use blockchain_crypto_messan.Common.{
  ℕ, ◌+◌, ◌*◌, ◌^◌, ◌≤◌, ◌<◌, ◌≡◌, refl, ap, ◌⊎◌, inl, inr, true, false, none, some, List, arith,
  length, ltb, Bool-cases,
}
use blockchain_crypto_messan.Text.{Bytes, NoNul, c_str-eq}
use blockchain_crypto_messan.Program.{returned}
use blockchain_crypto_messan.Wire.{
  Request, Call, piece_size, connected, max_count_connect, no_response, to_buffer, answered,
  sent_pieces, get_hash_or_blockchain_i2pd, int_to_unsigned_char_array_4,
}
use blockchain_crypto_messan.Wire.Pieces.{FullSpeed, join, receive_sized-sent}

-- A call to a peer that answers by `text`.
abbrev pub answering : Bytes → List ℕ → Call
answering text rs = record {
  connects = λ k. true;
  reply_size = some (int_to_unsigned_char_array_4 (length text));
  reply = record { arriving = join (sent_pieces (length text + 1) text); amounts = rs };
}

-- A peer that cannot be reached at either attempt, or that sends no size in time.
abbrev pub IsSilent : Call → Type 0
IsSilent call = (connected 0 max_count_connect call.connects ≡ false) ⊎ (call.reply_size ≡ none)

pub get_hash_or_blockchain_i2pd-silent :
    (capacity : ℕ) (request : Request) (call : Call)
    → IsSilent call
    → get_hash_or_blockchain_i2pd capacity request call ≡ returned (no_response request)
unfolding get_hash_or_blockchain_i2pd answered
get_hash_or_blockchain_i2pd-silent capacity request call (inl out) = rw out refl
get_hash_or_blockchain_i2pd-silent capacity request call (inr no_size) =
    elim (Bool-cases (connected 0 max_count_connect call.connects)) [
      | inl reached ↦ rw (reached, no_size) refl
      | inr out ↦ rw out refl
    ]

pub get_hash_or_blockchain_i2pd-answered :
    (capacity : ℕ) (request : Request) (text : Bytes) (rs : List ℕ)
    → NoNul text
    → length text < 2 ^ 31
    → length text ≤ capacity
    → FullSpeed rs
    → length text ≤ piece_size * length rs
    → get_hash_or_blockchain_i2pd capacity request (answering text rs) ≡ returned text
unfolding get_hash_or_blockchain_i2pd answered connected to_buffer
get_hash_or_blockchain_i2pd-answered capacity request text rs clean small fits full room =
    let fitting : ltb capacity (length text) ≡ false = ground arith in
    rw (receive_sized-sent text rs small full room, fitting) (ap returned (c_str-eq text clean))
