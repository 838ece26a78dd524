-- ===== src/Analysis/Counters.antt =====
-- The counters of unread messages (bcm-linux-console/Cpp_part.cpp,
-- update_new_message_count_to_user).
use blockchain_crypto_messan.Common.{ℕ, ◌+◌, ◌≡◌, refl, ap, ◌∙◌, true, List, [], ◌∷◌, map}
use blockchain_crypto_messan.Common.Int.{ℤ, pos}
use blockchain_crypto_messan.Text.{Bytes}
use blockchain_crypto_messan.Text.Decimal.{to_string}
use blockchain_crypto_messan.Program.{gets}
use blockchain_crypto_messan.Transaction.{Transaction}
use blockchain_crypto_messan.Sql.{
  UserRow, MessageRow, Statement, query, apply, Accepts, IsPlain, named, update_user, add_message,
  select_new_message, update_new_message,
}
use blockchain_crypto_messan.Sql.Engine.{
  Engine, IsSqlite, Node, Runs, Runs-pure, Runs-bind, run_sql, run_sql-Runs, selected,
}
use blockchain_crypto_messan.Keys.Laws.{with_seek, atoi-argv}
use blockchain_crypto_messan.Keys.Encrypt.{pos-+ℤ}
use blockchain_crypto_messan.Keys.Sequence.{moved_to, named-update_user}
use blockchain_crypto_messan.Analysis.{
  exec_opened, counted, get_count_new_message, update_new_message_count_to_user,
}

abbrev pub with_count : Node → Bytes → ℤ → Node
with_count n user count = record n {
  tables = record n.tables {
    general = update_user user (λ r. record r { new_message = count }) n.general;
  };
}

abbrev pub with_message : Node → Bytes → MessageRow → Node
with_message n table m = record n {
  tables = record n.tables { correspondence = add_message table m n.correspondence };
}

-- The counter in the one row of a correspondent.
abbrev pub Unread : Node → Bytes → ℕ → Type 0
Unread n user count = map (λ r. r.new_message) (named user n.general) ≡ pos count ∷ []

-- A message to `me` as it is parsed, and as it is filed.
abbrev pub transaction : Bytes → ℤ → Bytes → Bytes → Bytes → Transaction
transaction me id from time message = record {
  id = id;
  reciever = me;
  sender = from;
  time_of_sending = time;
  decrypt_message = message;
}

abbrev pub filed_row : Bytes → ℤ → Bytes → Bytes → Bytes → MessageRow
filed_row me id from time message = record {
  id_transaction = id;
  hwo_sender = from;
  hwo_receiver = me;
  time_of_sending = time;
  message = message;
}

pub counters :
    (rows : List UserRow)
    → map (λ r. to_string r.new_message ∷ []) rows
      ≡ map (λ z. to_string z ∷ []) (map (λ r. r.new_message) rows)
counters [] = refl
counters (r ∷ rows) = ap (λ l. (to_string r.new_message ∷ []) ∷ l) (counters rows)

pub counters-moved_to :
    (s : ℤ) (rows : List UserRow)
    → map (λ r. r.new_message) (map (moved_to s) rows) ≡ map (λ r. r.new_message) rows
counters-moved_to s [] = refl
counters-moved_to s (r ∷ rows) = ap (λ l. r.new_message ∷ l) (counters-moved_to s rows)

pub Unread-with_seek :
    (n : Node) (user : Bytes) (s : ℤ) (count : ℕ)
    → Unread n user count
    → Unread (with_seek n user s) user count
Unread-with_seek n user s count h =
    ap (map (λ r. r.new_message)) (named-update_user user s n.general) ∙ counters-moved_to s _ ∙ h

module _ (e : Engine) (q : IsSqlite e) where
  pub opens-Runs : (n : Node) → Runs e q (gets (λ w. e.opens w.db)) n true n
  opens-Runs n = record { at = λ w v. (w, rw (q.open_succeeds w.db) refl, v) }

  pub exec_opened-Runs :
      (s : Statement) (n : Node)
      → Accepts s n.tables
      → Runs e q
          (exec_opened e s)
          n
          (selected (query s n.tables))
          (record n { tables = apply s n.tables })
  unfolding exec_opened run_sql
  exec_opened-Runs s n h = record {
    at = λ w v.
        let r = (run_sql-Runs e q s n h).at w v in
        let same : exec_opened e s w ≡ run_sql e s w = rw (q.open_succeeds w.db) refl in
        (r.0, same ∙ r.1, r.2);
  }

  pub get_count_new_message-Runs :
      (n : Node) (user : Bytes) (count : ℕ)
      → IsPlain user
      → Unread n user count
      → Runs e q (get_count_new_message e user) n (pos count) n
  unfolding get_count_new_message counted query apply
  get_count_new_message-Runs n user count plain h =
      Runs-bind e q _ (run_sql-Runs e q (select_new_message user) n plain)
        (rw (counters (named user n.general), h, atoi-argv count) (Runs-pure e q _ _))

  pub update_new_message_count_to_user-Runs :
      (n : Node) (user : Bytes) (count : ℕ)
      → IsPlain user
      → Unread n user count
      → Runs e q
          (update_new_message_count_to_user e user (pos 1))
          n
          true
          (with_count n user (pos (count + 1)))
  unfolding update_new_message_count_to_user apply
  update_new_message_count_to_user-Runs n user count plain h = Runs-bind e q _ (opens-Runs n) (
      Runs-bind e q _
        (Runs-bind e q _ (get_count_new_message-Runs n user count plain h)
          (rw pos-+ℤ (Runs-pure e q _ _)))
        (Runs-bind e q _ (exec_opened-Runs (update_new_message (pos (count + 1)) user) n plain)
          (Runs-pure e q _ _)))
