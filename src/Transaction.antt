-- ===== src/Transaction.antt =====
-- A transaction in the clear: `parser` of bcm-linux-console/Cpp_part.cpp, and the text that
-- Messenger.cpp builds for it, <id>;<Receiver>;<Sender>;<Time_of_sending>;<message>;
pub mod RoundTrip
use blockchain_crypto_messan.Common.{
  ℕ, zero, suc, ◌+◌, ◌-◌, List, [], ◌∷◌, ◌++◌, drop, ◌==◌, if◌then◌else◌,
}
use blockchain_crypto_messan.Common.Int.{ℤ}
use blockchain_crypto_messan.Text.{Bytes, c_str, strncpy}
use blockchain_crypto_messan.Text.Decimal.{to_string, atoi}
use blockchain_crypto_messan.Program.{Outcome, returned, fault, blocked}

-- `;`
abbrev pub separator : ℕ
separator = b';'

-- MAX_TRANSACTION_LENGTH of Cpp_part.h
unfoldable pub max_transaction_length : ℕ
max_transaction_length = 1000001

pub record Transaction : Type 0 where
  pub id : ℤ
  pub reciever : Bytes
  pub sender : Bytes
  pub time_of_sending : Bytes
  pub decrypt_message : Bytes

infixl 10 ◌>>=◌
abbrev pub ◌>>=◌ {ℓ κ} : {A : Type ℓ} {B : Type κ} → Outcome A → (A → Outcome B) → Outcome B
returned a >>= f = f a
Outcome.exited >>= f = Outcome.exited
fault >>= f = fault
blocked >>= f = blocked

-- `for (i; i < MAX_TRANSACTION_LENGTH; i++) if (transaction_body[i] == ';') break;` from index
-- `i` on: `rounds` is how often `i` is below the limit, and `rest` the bytes of the buffer from
-- `i` on. The loop does not stop at the NUL, and a read behind the buffer is undefined.
unfoldable pub find_separator : ℕ → Bytes → ℕ → Outcome ℕ
find_separator zero rest i = returned i
find_separator (suc rounds) [] i = fault
find_separator (suc rounds) (c ∷ rest) i =
    let next = find_separator rounds rest (i + 1) in if c == separator then returned i else next

-- The next loop starts with the same `i`, one further on.
unfoldable pub next_separator : ℕ → Bytes → ℕ → Outcome ℕ
unfolding find_separator
next_separator limit body i = find_separator (limit - i) (drop i body) i

-- `strncpy (field, &transaction_body[from], size); field[size] = '\0';` read as a C string
abbrev pub field : Bytes → ℕ → ℕ → Bytes
field body from size = c_str (strncpy size (drop from body))

-- The body of `parser` over the bytes at `transaction_body`, with a limit in place of
-- MAX_TRANSACTION_LENGTH.
unfoldable pub parse_within : ℕ → Bytes → Outcome Transaction
parse_within limit body = do
  i₁ ← next_separator limit body 0
  let size_transaction_id = i₁
  i₂ ← next_separator limit body (i₁ + 1)
  let size_reciever = i₂ - 1 - size_transaction_id
  i₃ ← next_separator limit body (i₂ + 1)
  let size_sender = i₃ - 2 - size_transaction_id - size_reciever
  i₄ ← next_separator limit body (i₃ + 1)
  let size_time_of_sending = i₄ - 3 - size_reciever - size_sender - size_transaction_id
  i₅ ← next_separator limit body (i₄ + 1)
  let size_decrypt_message =
      i₅ - 4 - size_reciever - size_sender - size_time_of_sending - size_transaction_id
  returned (record {
    id = atoi (field body 0 size_transaction_id);
    reciever = field body (size_transaction_id + 1) size_reciever;
    sender = field body (size_reciever + size_transaction_id + 2) size_sender;
    time_of_sending =
        field body (size_reciever + size_sender + size_transaction_id + 3) size_time_of_sending;
    decrypt_message =
        field body (size_reciever + size_sender + size_time_of_sending + size_transaction_id + 4)
          size_decrypt_message;
  })

-- `c_str()` of the transaction is its bytes and a NUL.
unfoldable pub parser : Bytes → Outcome Transaction
unfolding parse_within next_separator max_transaction_length
parser transaction = parse_within max_transaction_length (c_str transaction ++ 0 ∷ [])

-- `encrypt_message_str` of Messenger.cpp
unfoldable pub compose : ℤ → Bytes → Bytes → Bytes → Bytes → Bytes
compose new_id_number user_name my_name date_time message =
    to_string new_id_number
    ++ separator
      ∷ (user_name
          ++ separator
            ∷ (my_name ++ separator ∷ (date_time ++ separator ∷ (message ++ separator ∷ []))))
