-- ===== src/Keys/Laws.antt =====
-- What the wrappers round GENERAL_TABLE return on a node with SQLite.
use blockchain_crypto_messan.Common.{
  ℕ, ◌+◌, ◌<◌, ◌≡◌, ap, ◌∙◌, some, [], ◌∷◌, ◌++◌, length, arith, drop-nil, lt→ltb, All,
}
use blockchain_crypto_messan.Common.Int.{ℤ, pos}
use blockchain_crypto_messan.Text.{Bytes, NoNul, c_str-eq}
use blockchain_crypto_messan.Text.Decimal.{
  atoi, to_string, IsDigit, to_string-IsDigit, atoi-to_string,
}
use blockchain_crypto_messan.Sql.{
  named, update_user, query, apply, IsPlain, select_key, select_key_seek, select_key_size,
  update_key_seek,
}
use blockchain_crypto_messan.Sql.Engine.{
  Engine, IsSqlite, Node, Runs, Runs-pure, Runs-bind, sql_or_exit-Runs,
}
use blockchain_crypto_messan.Keys.{
  buf_size, argv, callback_select_key_for_user, get_key_seek_for_user, get_key_size_for_user,
  get_key_for_user, set_key_seek_for_user,
}

IsDigit-NoNul : (s : Bytes) → All IsDigit s → NoNul s
IsDigit-NoNul [] h = tt
IsDigit-NoNul (c ∷ s) h = (omega arith, IsDigit-NoNul s h.1)

pub argv-number : (n : ℕ) → argv (to_string (pos n) ∷ []) 0 ≡ to_string (pos n)
argv-number n = c_str-eq _ (IsDigit-NoNul _ (to_string-IsDigit n))

-- A number that SQLite hands over as text is read back by the callback.
pub atoi-argv : (n : ℕ) → atoi (argv (to_string (pos n) ∷ []) 0) ≡ pos n
atoi-argv n = ap atoi (argv-number n) ∙ atoi-to_string n

-- The node has one row for the user, with a key file of NUL-free bytes that fits the buffer.
pub record Contact (n : Node) (user : Bytes) (key : Bytes) (seek : ℕ) : Type 0 where
  pub new_message : ℤ
  pub plain : IsPlain user
  pub row :
      named user n.general
      ≡ (record {
        user_name = user;
        key = key;
        key_size = pos (length key);
        key_seek = pos seek;
        new_message = new_message;
      })
        ∷ []
  pub key_NoNul : NoNul key
  pub key_fits : length key < buf_size

callback_key :
    (key : Bytes)
    → NoNul key
    → length key < buf_size
    → callback_select_key_for_user (some []) (key ∷ []) ≡ some (key ++ 0 ∷ [])
unfolding callback_select_key_for_user
callback_key key h fits =
    rw (c_str-eq key h, lt→ltb (length key) buf_size fits, drop-nil {A = ℕ} (length key + 1))

-- The node after the offset of the user has been moved.
abbrev pub with_seek : Node → Bytes → ℤ → Node
with_seek n user seek = record n {
  tables = record n.tables {
    general = update_user user (λ r. record r { key_seek = seek }) n.general;
  };
}

module _ (e : Engine) (q : IsSqlite e) {n : Node} {user key : Bytes} {seek : ℕ}
    (c : Contact n user key seek) where
  pub get_key_seek_for_user-Runs : Runs e q (get_key_seek_for_user e user) n (pos seek) n
  unfolding get_key_seek_for_user query apply
  get_key_seek_for_user-Runs =
      Runs-bind e q _ (sql_or_exit-Runs e q (select_key_seek user) n c.plain)
        (rw (c.row, atoi-argv) (Runs-pure e q _ _))

  pub get_key_size_for_user-Runs : Runs e q (get_key_size_for_user e user) n (pos (length key)) n
  unfolding get_key_size_for_user query apply
  get_key_size_for_user-Runs =
      Runs-bind e q _ (sql_or_exit-Runs e q (select_key_size user) n c.plain)
        (rw (c.row, atoi-argv) (Runs-pure e q _ _))

  pub get_key_for_user-Runs : Runs e q (get_key_for_user e user) n (key ++ 0 ∷ []) n
  unfolding get_key_for_user query apply
  get_key_for_user-Runs =
      Runs-bind e q _ (sql_or_exit-Runs e q (select_key user) n c.plain)
        (rw (c.row, callback_key key c.key_NoNul c.key_fits) (Runs-pure e q _ _))

  pub set_key_seek_for_user-Runs :
      (s : ℤ) → Runs e q (set_key_seek_for_user e user s) n tt (with_seek n user s)
  unfolding set_key_seek_for_user apply
  set_key_seek_for_user-Runs s =
      Runs-bind e q _ (sql_or_exit-Runs e q (update_key_seek s user) n c.plain) (Runs-pure e q _ _)
