-- ===== src/Examples/Messages.antt =====
-- The theorems on keys and messages of bcm-linux-console at concrete inputs.
use blockchain_crypto_messan.Common.{◌+◌, ◌*◌, drop, ◌≡◌, refl, some, [], ◌∷◌, ◌++◌, length, arith}
use blockchain_crypto_messan.Common.Int.{pos, ◌-ℤ◌}
use blockchain_crypto_messan.Text.{Bytes}
use blockchain_crypto_messan.Text.Decimal.{to_string}
use blockchain_crypto_messan.Sql.Engine.{Runs}
use blockchain_crypto_messan.Program.{returned}
use blockchain_crypto_messan.Pad.{gen_key, xor_bytes}
use blockchain_crypto_messan.Pad.Laws.{IsHigh, gen_key_lem}
use blockchain_crypto_messan.Keys.{encrypt_text_message}
use blockchain_crypto_messan.Keys.Laws.{with_seek}
use blockchain_crypto_messan.Keys.Encrypt.{encrypt_text_message_short}
use blockchain_crypto_messan.Keys.Sequence.{encrypt_text_message-twice}
use blockchain_crypto_messan.Transaction.{compose, parser, max_transaction_length}
use blockchain_crypto_messan.Transaction.RoundTrip.{parser-compose}
use blockchain_crypto_messan.Decrypt.{try_decrypt, attempt}
use blockchain_crypto_messan.Decrypt.Faulting.{Faults}
use blockchain_crypto_messan.Decrypt.Delivery.{delivery, stretch}
use blockchain_crypto_messan.Decrypt.Overrun.{try_decrypt-overrun}
use blockchain_crypto_messan.Examples.{
  memory, memory_lem, alice, bob, carol, time, word, key, key-IsHigh, of_alice, of_bob, bob_known,
  alice_known, carol_known, peer, letter, sealed,
}

parser-compose_example :
    parser (compose (pos 1) bob alice time word)
    ≡ returned (record {
      id = pos 1;
      reciever = bob;
      sender = alice;
      time_of_sending = time;
      decrypt_message = word;
    })
unfolding compose to_string max_transaction_length
parser-compose_example =
    parser-compose 1 bob alice time word (omega arith) (omega arith) (omega arith) (omega arith)
      (omega arith)

delivery_example :
    Runs memory memory_lem
      (encrypt_text_message memory bob letter)
      of_alice
      (some sealed)
      (with_seek of_alice bob (pos (1 + length letter)))
    × Runs memory memory_lem
        (try_decrypt memory bob sealed)
        of_bob
        (some letter)
        (with_seek of_bob alice (pos (1 + length letter)))
    × (parser letter
        ≡ returned (record {
          id = pos 1;
          reciever = bob;
          sender = alice;
          time_of_sending = time;
          decrypt_message = word;
        }))
unfolding compose to_string xor_bytes attempt ◌-ℤ◌
delivery_example =
    delivery memory memory_lem of_alice of_bob key 1 1 bob alice time word (peer carol [] 0 ∷ []) []
      bob_known (carol_known, (alice_known, tt)) refl (omega arith) key-IsHigh (omega arith)
      (omega arith) (omega arith) (omega arith) (omega arith) (omega arith) (omega arith) (refl, tt)

encrypt_text_message-twice_example :
    (sealed₁ sealed₂ : Bytes) × Runs memory memory_lem
      (encrypt_text_message memory bob (alice ++ time))
      of_alice
      (some sealed₁)
      (with_seek of_alice bob (pos 3))
    × Runs memory memory_lem
        (encrypt_text_message memory bob word)
        (with_seek of_alice bob (pos 3))
        (some sealed₂)
        (with_seek (with_seek of_alice bob (pos 3)) bob (pos 4))
    × (sealed₁ ++ sealed₂ ≡ xor_bytes (alice ++ time ++ word) (201 ∷ 202 ∷ 203 ∷ []))
encrypt_text_message-twice_example =
    encrypt_text_message-twice memory memory_lem of_alice bob key 1 (alice ++ time) word bob_known
      (omega arith) (omega arith) (omega arith)

encrypt_text_message_short_example :
    Runs memory memory_lem
      (encrypt_text_message memory bob (letter ++ time ++ word))
      of_alice
      (some (xor_bytes (letter ++ time) (drop 1 key) ++ b'm' ∷ []))
      (with_seek of_alice bob (pos 13))
unfolding compose to_string
encrypt_text_message_short_example =
    encrypt_text_message_short memory memory_lem bob_known (letter ++ time) b'm' (omega arith)
      (omega arith) (omega arith)

gen_key_lem_example : (length (gen_key 3 (λ i. i * 100)) ≡ 3) × IsHigh (gen_key 3 (λ i. i * 100))
gen_key_lem_example = gen_key_lem 3 (λ i. i * 100)

abbrev two_separators : Bytes
two_separators = alice ++ b';' ∷ (bob ++ b';' ∷ carol)

try_decrypt-overrun_example :
    Faults memory memory_lem of_bob
      (try_decrypt memory bob (xor_bytes two_separators (stretch key 1 (length two_separators))))
unfolding xor_bytes attempt ◌-ℤ◌
try_decrypt-overrun_example =
    try_decrypt-overrun memory memory_lem of_bob bob alice bob carol (peer carol [] 0 ∷ [])
      (peer alice key 1) [] refl (omega arith) (carol_known, (alice_known, tt)) key-IsHigh
      (omega arith) (omega arith) (omega arith) (omega arith) (omega arith) (omega arith) (refl, tt)
