-- ===== src/Accounts/Listing.antt =====
-- The messages with a correspondent, filed and shown (bcm-linux-console/Cpp_part.cpp,
-- add_record_to_user_table and return_my_messages_with_user).
use blockchain_crypto_messan.Common.{
  ℕ, ◌+◌, ◌≤◌, ◌<◌, ◌≡◌, refl, sym, ap, ◌∙◌, true, false, none, some, List, [], ◌∷◌, ◌++◌, map,
  map-append, append-nil, append_assoc, arith, length, length-append, length-map, ltb, ltb→lt,
  ltb→ge, subst, if◌then◌else◌, text_eq, Bool-cases, inl, inr, All, All-append,
}
use blockchain_crypto_messan.Common.Int.{pos}
use blockchain_crypto_messan.Text.{Bytes, NoNul, c_str-eq}
use blockchain_crypto_messan.Text.Decimal.{to_string}
use blockchain_crypto_messan.Program.{fault, ◌>>=◌, >>=-returned}
use blockchain_crypto_messan.Identifier.{is_table_name}
use blockchain_crypto_messan.Sql.{
  MessageRow, Row, Accepts, message_cells, messages_of, add_message, has_table, query, apply,
  insert_message, select_messages,
}
use blockchain_crypto_messan.Sql.Engine.{
  Engine, IsSqlite, World, Node, Runs, Runs-pure, Runs-bind, run_sql-Runs, view,
}
use blockchain_crypto_messan.Keys.{each_row}
use blockchain_crypto_messan.Keys.Laws.{argv-number}
use blockchain_crypto_messan.Analysis.{add_record_to_user_table}
use blockchain_crypto_messan.Analysis.Counters.{with_message}
use blockchain_crypto_messan.Analysis.Filing.{add_record_to_user_table-Runs}
use blockchain_crypto_messan.Accounts.{
  max_number_of_messages, ListedMessage, listed_message, callback_select_user_messages,
  return_my_messages_with_user, messages_read,
}

-- A message that is shown as it was filed.
pub record IsClean (m : MessageRow) : Type 0 where
  pub id : ℕ
  pub numbered : m.id_transaction ≡ pos id
  pub time : NoNul m.time_of_sending
  pub sender : NoNul m.hwo_sender
  pub receiver : NoNul m.hwo_receiver
  pub text : NoNul m.message

abbrev pub shown : MessageRow → ListedMessage
shown m = record {
  transaction_id = to_string m.id_transaction;
  time_of_sending = m.time_of_sending;
  hwo_sender = m.hwo_sender;
  hwo_reciever = m.hwo_receiver;
  message = m.message;
}

listed-shown : (m : MessageRow) → IsClean m → listed_message (message_cells m) ≡ shown m
listed-shown m c =
    rw
      (
        c.numbered,
        argv-number c.id,
        c_str-eq _ c.time,
        c_str-eq _ c.sender,
        c_str-eq _ c.receiver,
        c_str-eq _ c.text,
      )
      refl

callback_room :
    (list : List ListedMessage) (row : Row)
    → length list < max_number_of_messages
    → callback_select_user_messages (some list) row ≡ some (list ++ listed_message row ∷ [])
unfolding callback_select_user_messages
callback_room list row lt =
    let room : ltb (length list) max_number_of_messages ≡ true = ground arith in rw room refl

callback_full :
    (list : List ListedMessage) (row : Row)
    → max_number_of_messages ≤ length list
    → callback_select_user_messages (some list) row ≡ none
unfolding callback_select_user_messages
callback_full list row ge =
    let room : ltb (length list) max_number_of_messages ≡ false = ground arith in rw room refl

each_message :
    (ms : List MessageRow) (list : List ListedMessage)
    → All IsClean ms
    → length list + length ms ≤ max_number_of_messages
    → each_row callback_select_user_messages (some list) (map message_cells ms)
      ≡ some (list ++ map shown ms)
each_message [] list h le = ap some (sym (append-nil list))
each_message (m ∷ ms) list h le =
    ap (λ acc. each_row callback_select_user_messages acc (map message_cells ms))
      (callback_room list (message_cells m) (omega arith)
        ∙ ap (λ l. some (list ++ l ∷ [])) (listed-shown m h.0))
    ∙ each_message ms (list ++ shown m ∷ []) h.1 (omega (arith, length-append list (shown m ∷ [])))
    ∙ ap some (append_assoc list (shown m ∷ []) (map shown ms))

each_row-none : (rows : List Row) → each_row callback_select_user_messages none rows ≡ none
unfolding callback_select_user_messages
each_row-none [] = refl
each_row-none (row ∷ rows) = each_row-none rows

each_row-overrun :
    (rows : List Row) (list : List ListedMessage)
    → length list ≤ max_number_of_messages
    → max_number_of_messages < length list + length rows
    → each_row callback_select_user_messages (some list) rows ≡ none
each_row-overrun [] list le more = absurd (omega arith)
each_row-overrun (row ∷ rows) list le more =
    elim (Bool-cases (ltb (length list) max_number_of_messages)) [
      | inl room ↦
          ap (λ acc. each_row callback_select_user_messages acc rows)
            (callback_room list row (ltb→lt _ _ room))
          ∙ each_row-overrun rows (list ++ listed_message row ∷ [])
              (omega (arith, ltb→lt _ _ room, length-append list (listed_message row ∷ [])))
              (omega (arith, length-append list (listed_message row ∷ [])))
      | inr full ↦
          ap (λ acc. each_row callback_select_user_messages acc rows)
            (callback_full list row (ltb→ge _ _ full))
          ∙ each_row-none rows
    ]

messages_of-add_message :
    (table : Bytes) (m : MessageRow) (tables : List (Bytes × List MessageRow))
    → has_table table tables ≡ true
    → messages_of table (add_message table m tables) ≡ messages_of table tables ++ m ∷ []
unfolding messages_of add_message has_table
messages_of-add_message table m [] h = cc
messages_of-add_message table m ((name, rows) ∷ rest) h = elim (Bool-cases (text_eq name table)) [
  | inl same ↦ rw same refl
  | inr other ↦
      let there : has_table table rest ≡ true =
        subst (λ t. (if t then true else has_table table rest) ≡ true) other h in
      rw other (messages_of-add_message table m rest there)
]

has_table-add_message :
    (table : Bytes) (m : MessageRow) (tables : List (Bytes × List MessageRow))
    → has_table table (add_message table m tables) ≡ has_table table tables
unfolding add_message has_table
has_table-add_message table m [] = refl
has_table-add_message table m ((name, rows) ∷ rest) =
    ap (λ t. if text_eq name table then true else t) (has_table-add_message table m rest)

messages_of-Clean :
    (table : Bytes) (m : MessageRow) (tables : List (Bytes × List MessageRow))
    → has_table table tables ≡ true
    → All IsClean (messages_of table tables)
    → IsClean m
    → All IsClean (messages_of table (add_message table m tables))
messages_of-Clean table m tables there old new =
    subst (All IsClean) (sym (messages_of-add_message table m tables there))
      (All-append IsClean (messages_of table tables) (m ∷ []) old (new, tt))

module _ (e : Engine) (q : IsSqlite e) where
  -- At most a hundred messages are listed in the order in which they were filed.
  return_my_messages_with_user-Runs :
      (n : Node) (table : Bytes)
      → is_table_name table ≡ true
      → has_table table n.correspondence ≡ true
      → All IsClean (messages_of table n.correspondence)
      → length (messages_of table n.correspondence) ≤ max_number_of_messages
      → Runs e q
          (return_my_messages_with_user e table)
          n
          (some (map shown (messages_of table n.correspondence)))
          n
  unfolding return_my_messages_with_user query apply
  return_my_messages_with_user-Runs n table name there clean few =
      Runs-bind e q _ (run_sql-Runs e q (select_messages table) n (name, there)) (
        rw (each_message (messages_of table n.correspondence) [] clean (omega arith))
          (Runs-pure e q _ n))

  -- A message that is filed, as one whose texts have no NUL, in a table of fewer than a hundred is
  -- listed behind those that were there.
  pub return_my_messages_with_user-filed :
      (n : Node) (table : Bytes) (m : MessageRow)
      → Accepts (insert_message table m) n.tables
      → is_table_name table ≡ true
      → All IsClean (messages_of table n.correspondence)
      → IsClean m
      → length (messages_of table n.correspondence) < max_number_of_messages
      → Runs e q
          (do
            _ ←
                add_record_to_user_table e table m.id_transaction m.hwo_sender m.hwo_receiver
                  m.time_of_sending m.message
            return_my_messages_with_user e table)
          n
          (some (map shown (messages_of table n.correspondence) ++ shown m ∷ []))
          (with_message n table m)
  return_my_messages_with_user-filed n table m accepted name clean new few =
      let there : has_table table n.correspondence ≡ true = accepted.5 in
      let all : messages_of table (add_message table m n.correspondence)
          ≡ messages_of table n.correspondence ++ m ∷ [] =
        messages_of-add_message table m n.correspondence there in
      Runs-bind e q _ (add_record_to_user_table-Runs e q n table m accepted) (
        subst
          (λ list.
            Runs e q (return_my_messages_with_user e table) (with_message n table m) (some list)
              (with_message n table m))
          (ap (map shown) all ∙ map-append shown (messages_of table n.correspondence) (m ∷ []))
          (return_my_messages_with_user-Runs (with_message n table m) table name
            (has_table-add_message table m n.correspondence ∙ there)
            (messages_of-Clean table m n.correspondence there clean new)
            (omega
              (arith, ap length all, length-append (messages_of table n.correspondence) (m ∷ [])))))

  -- With more than a hundred messages the callback writes behind the arrays.
  pub return_my_messages_with_user-overrun :
      (n : Node) (table : Bytes) (w : World e)
      → view e q w ≡ n
      → is_table_name table ≡ true
      → has_table table n.correspondence ≡ true
      → max_number_of_messages < length (messages_of table n.correspondence)
      → (return_my_messages_with_user e table w).0 ≡ fault
  unfolding return_my_messages_with_user query
  return_my_messages_with_user-overrun n table w v name there many =
      let r = (run_sql-Runs e q (select_messages table) n (name, there)).at w v in
      let over : each_row callback_select_user_messages (some [])
            (map message_cells (messages_of table n.correspondence))
          ≡ none =
        each_row-overrun (map message_cells (messages_of table n.correspondence)) [] (omega arith)
          (omega (arith, length-map message_cells (messages_of table n.correspondence))) in
      ap (λ t. t.0) (>>=-returned _ (messages_read e) w r.1) ∙ rw over refl
