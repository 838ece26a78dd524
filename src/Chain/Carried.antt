-- ===== src/Chain/Carried.antt =====
-- Sealed messages as entries of the file that travels between the nodes of bcm-linux-console.
use blockchain_crypto_messan.Common.{ℕ, ◌+◌, ◌≤◌, length, arith}
use blockchain_crypto_messan.Text.{Bytes}
use blockchain_crypto_messan.Transaction.RoundTrip.{All-weaken}
use blockchain_crypto_messan.Pad.{xor_bytes}
use blockchain_crypto_messan.Pad.Laws.{IsAscii, IsHigh}
use blockchain_crypto_messan.Decrypt.Delivery.{stretch, cipher-IsHigh}
use blockchain_crypto_messan.Chain.File.{IsEntry}

-- A text sealed under a key without bytes below 128 has neither a NUL nor the terminator `~` in
-- it: as a transaction in the file it ends where it should.
pub sealed-IsEntry :
    (key text : Bytes) (seek : ℕ)
    → IsHigh key
    → IsAscii text
    → seek + length text ≤ length key
    → IsEntry (xor_bytes text (stretch key seek (length text)))
sealed-IsEntry key text seek high ascii enough =
    All-weaken (xor_bytes text (stretch key seek (length text))) (λ c h. (omega arith, omega arith))
      (cipher-IsHigh key text seek high ascii enough)
