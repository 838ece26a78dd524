-- ===== src/Examples.antt =====
-- Concrete nodes of bcm-linux-console, with an engine that keeps the tables in memory.
mod Analyses
mod Chains
mod Connections
mod Messages
mod Servers
mod Shares
mod Tunnels
mod Turns
mod Votes
mod Announced
mod Sendings
mod Rounds
mod Registrations
use blockchain_crypto_messan.Common.{
  ℕ, ◌≡◌, refl, ◌∙◌, none, some, List, [], ◌∷◌, ◌++◌, length, arith, if◌then◌else◌, text_eq, true,
}
use blockchain_crypto_messan.Common.Int.{ℤ, pos}
use blockchain_crypto_messan.Text.{Bytes}
use blockchain_crypto_messan.Text.Decimal.{to_string}
use blockchain_crypto_messan.Sql.{UserRow, BlockRow, MessageRow, Tables, query, apply, named}
use blockchain_crypto_messan.Sql.Engine.{Engine, IsSqlite, Files, Node}
use blockchain_crypto_messan.Pad.{xor_bytes}
use blockchain_crypto_messan.Pad.Laws.{IsHigh}
use blockchain_crypto_messan.Keys.Laws.{Contact}
use blockchain_crypto_messan.Chain.Links.{IsChain, extend, extend-IsChain}
use blockchain_crypto_messan.Transaction.{compose}
use blockchain_crypto_messan.Decrypt.{attempt, decrypted}
use blockchain_crypto_messan.Decrypt.Roster.{Peer}
use blockchain_crypto_messan.Decrypt.Delivery.{
  compose-IsAscii, attempt-cipher, judge-compose, stretch,
}

-- A database that keeps its tables and always answers.
abbrev memory : Engine
memory = record { Db = Tables; opens = λ d. true; exec = λ d s. (true, query s d, apply s d) }

memory_lem : IsSqlite memory
memory_lem = record {
  tables = λ d. d;
  open_succeeds = λ d. refl;
  exec_succeeds = λ d s h. refl;
  exec_rows = λ d s h. refl;
  exec_tables = λ d s h. refl;
}

abbrev alice : Bytes
alice = b'a' ∷ []

abbrev bob : Bytes
bob = b'b' ∷ []

abbrev carol : Bytes
carol = b'c' ∷ []

abbrev time : Bytes
time = b't' ∷ []

abbrev word : Bytes
word = b'm' ∷ []

abbrev key : Bytes
key = 200 ∷ 201 ∷ 202 ∷ 203 ∷ 204 ∷ 205 ∷ 206 ∷ 207 ∷ 208 ∷ 209 ∷ 210 ∷ 211 ∷ []

abbrev user_row : Bytes → Bytes → ℕ → UserRow
user_row user k seek = record {
  user_name = user;
  key = k;
  key_size = pos (length k);
  key_seek = pos seek;
  new_message = pos 0;
}

-- The file that the node has.
abbrev buffer_name : Bytes
buffer_name = b'f' ∷ []

abbrev one_file : Bytes → Files
one_file content = λ name. if text_eq name buffer_name then some content else none

abbrev node_with : List UserRow → List BlockRow → Bytes → Node
node_with general blockchain content = record {
  tables = record {
    general = general;
    blockchain = blockchain;
    last_analysed_id = pos 0;
    last_available_id = pos 0;
    correspondence = [];
  };
  files = one_file content;
}

-- Alice writes to Bob, who also knows Carol, without a key for her.
abbrev of_alice : Node
of_alice = node_with (user_row bob key 1 ∷ []) [] []

abbrev of_bob : Node
of_bob = node_with (user_row carol [] 0 ∷ user_row alice key 1 ∷ []) [] []

bob_known : Contact of_alice bob key 1
unfolding named text_eq
bob_known = record {
  new_message = pos 0;
  plain = omega arith;
  row = refl;
  key_NoNul = omega arith;
  key_fits = omega arith;
}

alice_known : Contact of_bob alice key 1
unfolding named text_eq
alice_known = record {
  new_message = pos 0;
  plain = omega arith;
  row = refl;
  key_NoNul = omega arith;
  key_fits = omega arith;
}

carol_known : Contact of_bob carol [] 0
unfolding named text_eq
carol_known = record {
  new_message = pos 0;
  plain = omega arith;
  row = refl;
  key_NoNul = tt;
  key_fits = omega arith;
}

abbrev peer : Bytes → Bytes → ℕ → Peer
peer user k seek = record { user = user; key = k; seek = seek }

abbrev letter : Bytes
letter = compose (pos 1) bob alice time word

abbrev sealed : Bytes
sealed = xor_bytes letter (stretch key 1 (length letter))

letter_size : length letter ≡ 10
unfolding compose to_string
letter_size = refl

key-IsHigh : IsHigh key
key-IsHigh = omega arith

-- A digest of one byte.
abbrev digest : Bytes → Bytes
digest s = length s ∷ []

carol_alone : Contact (node_with (user_row carol [] 0 ∷ []) [] []) carol [] 0
unfolding named text_eq
carol_alone = record {
  new_message = pos 0;
  plain = omega arith;
  row = refl;
  key_NoNul = tt;
  key_fits = omega arith;
}

letter_opened :
    attempt bob alice (key ++ 0 ∷ []) (pos (length key)) (pos 1) sealed ≡ decrypted letter
unfolding compose to_string xor_bytes
letter_opened =
    attempt-cipher key letter 1 key-IsHigh
      (compose-IsAscii 1 bob alice time word (omega arith) (omega arith) (omega arith)
        (omega arith))
      (omega arith) bob alice (omega arith)
    ∙ judge-compose 1 bob alice time word (omega arith) (omega arith) (omega arith) (omega arith)
        (omega arith) (omega arith)

abbrev clock : ℤ → Bytes
clock ii = time

-- Carol's key is empty, so that none of the blocks can be opened.
abbrev foreign_blocks : List BlockRow
foreign_blocks = extend digest [] ((alice ++ alice) ∷ (bob ++ bob) ∷ [])

abbrev outsider : Node
outsider = node_with (user_row carol [] 0 ∷ []) foreign_blocks []

outsider_known : Contact outsider carol [] 0
unfolding named text_eq
outsider_known = record {
  new_message = pos 0;
  plain = omega arith;
  row = refl;
  key_NoNul = tt;
  key_fits = omega arith;
}

foreign_blocks-IsChain : IsChain digest foreign_blocks
foreign_blocks-IsChain =
    extend-IsChain digest [] ((alice ++ alice) ∷ (bob ++ bob) ∷ []) tt (omega arith)
