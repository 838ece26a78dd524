-- ===== src/Sql.antt =====
-- The SQLite database of a node (bcm-linux-console/Cpp_part.cpp): its tables, and each SQL
-- statement that the program sends, with the values that it writes into the text. What a statement
-- means is what the SQL language says; the engine that runs it is a parameter, in `Engine`.
pub mod Engine
use blockchain_crypto_messan.Common.{
  ℕ, ◌≡◌, ◌≢◌, ◌<◌, Bool, true, false, not, ◌&&◌, List, [], ◌∷◌, ◌++◌, map, length, text_eq,
  if◌then◌else◌, All,
}
use blockchain_crypto_messan.Common.Int.{ℤ, pos, pos_part, neg_part}
use blockchain_crypto_messan.Common.{◌==◌}
use blockchain_crypto_messan.Text.{Bytes, NoNul}
use blockchain_crypto_messan.Identifier.{same_name, any_name, is_table_name}
use blockchain_crypto_messan.Text.Decimal.{to_string}

-- A row of GENERAL_TABLE.
pub record UserRow : Type 0 where
  pub user_name : Bytes
  pub key : Bytes
  pub key_size : ℤ
  pub key_seek : ℤ
  pub new_message : ℤ

-- A row of BLOCKCHAIN_TABLE.
pub record BlockRow : Type 0 where
  pub transaction_id : ℤ
  pub transaction_body : Bytes
  pub transaction_size : ℤ
  pub before_transaction_hash : Bytes
  pub transaction_hash : Bytes

-- A row of the table of one correspondent.
pub record MessageRow : Type 0 where
  pub id_transaction : ℤ
  pub hwo_sender : Bytes
  pub hwo_receiver : Bytes
  pub time_of_sending : Bytes
  pub message : Bytes

-- The rows in order of insertion; CONFIG_TABLE has its one row with ID = 1.
pub record Tables : Type 0 where
  pub general : List UserRow
  pub blockchain : List BlockRow
  pub last_analysed_id : ℤ
  pub last_available_id : ℤ
  pub correspondence : List (Bytes × List MessageRow)

pub data Statement : Type 0 where
  -- SELECT KEY | KEY_SEEK | KEY_SIZE | NEW_MESSAGE from GENERAL_TABLE WHERE USER_NAME = '…'
  select_key select_key_seek select_key_size select_new_message : Bytes → Statement
  -- SELECT USER_NAME from GENERAL_TABLE
  select_user_name : Statement
  -- UPDATE GENERAL_TABLE SET KEY_SEEK = … | NEW_MESSAGE = … WHERE USER_NAME = '…'
  update_key_seek update_new_message : ℤ → Bytes → Statement
  -- SELECT COUNT(*) from BLOCKCHAIN_TABLE
  count_blockchain : Statement
  -- SELECT TRANSACTION_BODY from BLOCKCHAIN_TABLE WHERE TRANSACTION_ID = …
  select_transaction_body : ℤ → Statement
  -- SELECT TRANSACTION_HASH from BLOCKCHAIN_TABLE WHERE TRANSACTION_ID = …
  select_transaction_hash : ℤ → Statement
  -- INSERT INTO BLOCKCHAIN_TABLE (…) VALUES (?,?,?,?,?)
  insert_block : BlockRow → Statement
  -- DELETE FROM BLOCKCHAIN_TABLE;
  delete_blockchain : Statement
  -- SELECT LAST_ANALYSED_ID | LAST_AVAILABLE_ID from CONFIG_TABLE
  select_last_analysed_id select_last_available_id : Statement
  -- UPDATE CONFIG_TABLE SET LAST_ANALYSED_ID = … | LAST_AVAILABLE_ID = … WHERE ID = 1
  update_last_analysed_id update_last_available_id : ℤ → Statement
  -- INSERT INTO … (ID_TRANSACTION_IN_GLOBAL_BLOCKCHAIN,…) VALUES (…)
  insert_message : Bytes → MessageRow → Statement
  -- SELECT ID_TRANSACTION_IN_GLOBAL_BLOCKCHAIN, … FROM …
  select_messages : Bytes → Statement
  -- CREATE TABLE … (…)
  create_user_table : Bytes → Statement
  -- INSERT INTO GENERAL_TABLE(…) VALUES ('…','…',…)
  insert_user : UserRow → Statement
  -- UPDATE GENERAL_TABLE SET KEY = '…', KEY_SIZE = …, KEY_SEEK = … WHERE USER_NAME = '…'
  update_key : Bytes → ℤ → ℤ → Bytes → Statement

-- The strings `argv` of one call of a callback.
abbrev pub Row : Type 0
Row = List Bytes

-- The rows of GENERAL_TABLE with a given USER_NAME, and those of BLOCKCHAIN_TABLE with a given id.
unfoldable pub named : Bytes → List UserRow → List UserRow
named user [] = []
named user (r ∷ rs) =
    let rest = named user rs in if text_eq r.user_name user then r ∷ rest else rest

abbrev pub same_int : ℤ → ℤ → Bool
same_int a b = pos_part a == pos_part b && neg_part a == neg_part b

unfoldable pub numbered : ℤ → List BlockRow → List BlockRow
numbered id [] = []
numbered id (b ∷ bs) =
    let rest = numbered id bs in if same_int b.transaction_id id then b ∷ rest else rest

unfoldable pub update_user : Bytes → (UserRow → UserRow) → List UserRow → List UserRow
update_user user f [] = []
update_user user f (r ∷ rs) = (if text_eq r.user_name user then f r else r) ∷ update_user user f rs

unfoldable pub add_message :
    Bytes → MessageRow → List (Bytes × List MessageRow) → List (Bytes × List MessageRow)
add_message table m [] = []
add_message table m ((name, rows) ∷ rest) =
    (name, (if text_eq name table then rows ++ m ∷ [] else rows)) ∷ add_message table m rest

unfoldable pub has_table : Bytes → List (Bytes × List MessageRow) → Bool
has_table table [] = false
has_table table ((name, rows) ∷ rest) =
    let later = has_table table rest in if text_eq name table then true else later

unfoldable pub messages_of : Bytes → List (Bytes × List MessageRow) → List MessageRow
messages_of table [] = []
messages_of table ((name, rows) ∷ rest) =
    let later = messages_of table rest in if text_eq name table then rows else later

abbrev pub names_of : List (Bytes × List MessageRow) → List Bytes
names_of tables = map (λ t. t.0) tables

abbrev pub message_cells : MessageRow → Row
message_cells m =
    to_string m.id_transaction ∷ m.time_of_sending ∷ m.hwo_sender ∷ m.hwo_receiver ∷ m.message ∷ []

-- The rows that a statement hands to its callback.
unfoldable pub query : Statement → Tables → List Row
query (select_key user) t = map (λ r. r.key ∷ []) (named user t.general)
query (select_key_seek user) t = map (λ r. to_string r.key_seek ∷ []) (named user t.general)
query (select_key_size user) t = map (λ r. to_string r.key_size ∷ []) (named user t.general)
query (select_new_message user) t = map (λ r. to_string r.new_message ∷ []) (named user t.general)
query select_user_name t = map (λ r. r.user_name ∷ []) t.general
query count_blockchain t = (to_string (pos (length t.blockchain)) ∷ []) ∷ []
query (select_transaction_body id) t = map (λ b. b.transaction_body ∷ []) (numbered id t.blockchain)
query (select_transaction_hash id) t = map (λ b. b.transaction_hash ∷ []) (numbered id t.blockchain)
query select_last_analysed_id t = (to_string t.last_analysed_id ∷ []) ∷ []
query select_last_available_id t = (to_string t.last_available_id ∷ []) ∷ []
query (select_messages table) t = map message_cells (messages_of table t.correspondence)
query _ t = []

-- The tables after a statement.
unfoldable pub apply : Statement → Tables → Tables
apply (update_key_seek seek user) t = record t {
  general = update_user user (λ r. record r { key_seek = seek }) t.general;
}
apply (update_new_message n user) t = record t {
  general = update_user user (λ r. record r { new_message = n }) t.general;
}
apply (insert_block b) t = record t { blockchain = t.blockchain ++ b ∷ [] }
apply delete_blockchain t = record t { blockchain = [] }
apply (update_last_analysed_id id) t = record t { last_analysed_id = id }
apply (update_last_available_id id) t = record t { last_available_id = id }
apply (insert_message table m) t = record t {
  correspondence = add_message table m t.correspondence;
}
apply (create_user_table table) t = record t {
  correspondence = t.correspondence ++ (table, []) ∷ [];
}
apply (insert_user r) t = record t { general = t.general ++ r ∷ [] }
apply (update_key key size seek user) t = record t {
  general =
      update_user user (λ r. record r { key = key; key_size = size; key_seek = seek }) t.general;
}
apply _ t = t

-- A text that may stand between quotes in a statement: no quote and no NUL.
abbrev pub IsPlain : Bytes → Type 0
IsPlain s = All (λ c. (0 < c) × (c ≢ 39)) s

-- The statements that SQLite accepts: texts that are written into the statement have no quote, the
-- table of an insertion is there, and that of a creation is not. A text bound to a prepared statement is any C string.
abbrev pub Accepts : Statement → Tables → Type 0
Accepts (select_key user) t = IsPlain user
Accepts (select_key_seek user) t = IsPlain user
Accepts (select_key_size user) t = IsPlain user
Accepts (select_new_message user) t = IsPlain user
Accepts (update_key_seek seek user) t = IsPlain user
Accepts (update_new_message n user) t = IsPlain user
Accepts (insert_block b) t =
    NoNul b.transaction_body × NoNul b.before_transaction_hash × NoNul b.transaction_hash
Accepts (insert_message table m) t =
    IsPlain table
    × IsPlain m.hwo_sender
    × IsPlain m.hwo_receiver
    × IsPlain m.time_of_sending
    × IsPlain m.message
    × (has_table table t.correspondence ≡ true)
Accepts (select_messages table) t =
    (is_table_name table ≡ true) × (has_table table t.correspondence ≡ true)
Accepts (create_user_table table) t =
    (is_table_name table ≡ true) × (any_name (same_name table) (names_of t.correspondence) ≡ false)
Accepts (insert_user r) t = IsPlain r.user_name × IsPlain r.key
Accepts (update_key key size seek user) t = IsPlain key × IsPlain user
Accepts _ t = Unit
