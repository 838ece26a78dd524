-- ===== src/Accounts/Registered.antt =====
-- A new correspondent (bcm-linux-console/Cpp_part.cpp, create_table_for_new_user).
use blockchain_crypto_messan.Common.{
  ℕ, ◌<◌, ◌≡◌, refl, sym, ap, ap₂, ◌∙◌, true, false, some, List, [], ◌∷◌, ◌++◌, map, map-append,
  arith, length, length-append, text_eq, text_eq→eq, text_eq_refl, Bool-cases, inl, inr, All,
}
use blockchain_crypto_messan.Common.Int.{ℤ, pos}
use blockchain_crypto_messan.Text.{Bytes}
use blockchain_crypto_messan.Identifier.{same_name, any_name, is_table_name}
use blockchain_crypto_messan.Sql.{
  UserRow, IsPlain, named, apply, create_user_table, insert_user, names_of,
}
use blockchain_crypto_messan.Sql.Engine.{
  Engine, IsSqlite, Node, Runs, Runs-pure, Runs-bind, Runs-file, Runs-write,
}
use blockchain_crypto_messan.Keys.{buf_size}
use blockchain_crypto_messan.Keys.Laws.{Contact}
use blockchain_crypto_messan.Decrypt.{max_number_of_users}
use blockchain_crypto_messan.Decrypt.Roster.{Peer, Known, IsPlain-NoNul}
use blockchain_crypto_messan.Chain.{removed}
use blockchain_crypto_messan.Chain.Links.{IsChain}
use blockchain_crypto_messan.Analysis.Counters.{Unread, opens-Runs, exec_opened-Runs}
use blockchain_crypto_messan.Analysis.Wrappers.{Roster}
use blockchain_crypto_messan.Analysis.Cursor.{Foreign}
use blockchain_crypto_messan.Accounts.{new_user, open_or_exit, create_table_for_new_user}
use blockchain_crypto_messan.Accounts.Unopened.{analyse_blockchein_for_user_name-Foreign}

-- The node with the correspondent, an empty table and without the key file.
abbrev pub with_user : Node → Bytes → Bytes → Bytes → Node
with_user n name key path = record {
  tables = record n.tables {
    general = n.general ++ new_user name key ∷ [];
    correspondence = n.correspondence ++ (name, []) ∷ [];
  };
  files = removed path n.files;
}

not_both : {r : UserRow} → [] ≡ r ∷ [] → ⊥
not_both h = ground (arith, h)

named-append :
    (user : Bytes) (xs ys : List UserRow) → named user (xs ++ ys) ≡ named user xs ++ named user ys
unfolding named
named-append user [] ys = refl
named-append user (x ∷ xs) ys = elim (Bool-cases (text_eq x.user_name user)) [
  | inl same ↦ rw same (ap (λ l. x ∷ l) (named-append user xs ys))
  | inr other ↦ rw other (named-append user xs ys)
]

-- The rows of one name in a table with one row more.
named_with :
    (user name key : Bytes) (rows old new : List UserRow)
    → named user rows ≡ old
    → named user (new_user name key ∷ []) ≡ new
    → named user (rows ++ new_user name key ∷ []) ≡ old ++ new
named_with user name key rows old new h k =
    named-append user rows (new_user name key ∷ []) ∙ ap₂ ◌++◌ h k

named_new : (name key : Bytes) → named name (new_user name key ∷ []) ≡ new_user name key ∷ []
unfolding named
named_new name key = rw (text_eq_refl name) refl

named_other :
    (user name key : Bytes) → text_eq name user ≡ false → named user (new_user name key ∷ []) ≡ []
unfolding named
named_other user name key other = rw other refl

-- What can be registered: a table name that is free, with a key file without quote and NUL that
-- fits the buffer.
pub record CanRegister (n : Node) (name key path : Bytes) : Type 0 where
  pub table_name : is_table_name name ≡ true
  pub free : any_name (same_name name) (names_of n.correspondence) ≡ false
  pub new : named name n.general ≡ []
  pub plain : IsPlain name
  pub plain_key : IsPlain key
  pub key_fits : length key < buf_size
  pub key_file : n.files path ≡ some key

-- A correspondent that has been registered has the whole key before it.
pub Contact-with_user :
    (n : Node) (name key path : Bytes)
    → CanRegister n name key path
    → Contact (with_user n name key path) name key 0
Contact-with_user n name key path c = record {
  new_message = pos 0;
  plain = c.plain;
  row = named_with name name key n.general [] _ c.new (named_new name key);
  key_NoNul = IsPlain-NoNul key c.plain_key;
  key_fits = c.key_fits;
}

Unread-with_user :
    (n : Node) (name key path : Bytes)
    → CanRegister n name key path
    → Unread (with_user n name key path) name 0
Unread-with_user n name key path c =
    ap (map (λ (r : UserRow). r.new_message))
      (named_with name name key n.general [] _ c.new (named_new name key))

-- The other correspondents are as they were.
other_name :
    (n : Node) (name user key : Bytes) (seek : ℕ)
    → named name n.general ≡ []
    → Contact n user key seek
    → text_eq name user ≡ false
other_name n name user key seek new c = elim (Bool-cases (text_eq name user)) [
  | inl same ↦
      absurd (not_both (sym new ∙ ap (λ u. named u n.general) (text_eq→eq name user same) ∙ c.row))
  | inr other ↦ other
]

Contact-other :
    (n : Node) (name key path : Bytes) (x : Peer)
    → named name n.general ≡ []
    → Contact n x.user x.key x.seek
    → Contact (with_user n name key path) x.user x.key x.seek
Contact-other n name key path x new c = record {
  new_message = c.new_message;
  plain = c.plain;
  row =
      named_with x.user name key n.general _ [] c.row
        (named_other x.user name key (other_name n name x.user x.key x.seek new c));
  key_NoNul = c.key_NoNul;
  key_fits = c.key_fits;
}

abbrev pub entered : Bytes → Bytes → Peer
entered name key = record { user = name; key = key; seek = 0 }

module _ (e : Engine) (q : IsSqlite e) (n : Node) (name key path : Bytes)
    (c : CanRegister n name key path) where
  Known-with_user :
      (peers : List Peer)
      → Known e q n peers
      → Known e q (with_user n name key path) (peers ++ entered name key ∷ [])
  Known-with_user [] h = (Contact-with_user n name key path c, tt)
  Known-with_user (x ∷ peers) h =
      (Contact-other n name key path x c.new h.0, Known-with_user peers h.1)

  pub Roster-with_user :
      (peers : List Peer)
      → Roster e q n peers
      → length peers < max_number_of_users
      → Roster e q (with_user n name key path) (peers ++ entered name key ∷ [])
  Roster-with_user peers h few = (
    map-append (λ (r : UserRow). r.user_name) n.general _
        ∙ ap (λ l. l ++ name ∷ []) h.0
        ∙ sym (map-append (λ (y : Peer). y.user) peers (entered name key ∷ [])),
    omega (arith, length-append peers (entered name key ∷ [])),
    Known-with_user peers h.2,
  )

  -- A correspondent is registered, where no key, the new one included, opens a block of the chain.
  pub create_table_for_new_user-Runs :
      (md5 base64_decode : Bytes → Bytes) (my_name : Bytes) (clock : ℤ → Bytes) (peers : List Peer)
      → Roster e q n peers
      → length peers < max_number_of_users
      → IsChain md5 n.blockchain
      → All
          (Foreign e q base64_decode my_name clock
            (with_user n name key path)
            (peers ++ entered name key ∷ []))
          n.blockchain
      → Runs e q
          (create_table_for_new_user e base64_decode my_name clock name path)
          n
          true
          (with_user n name key path)
  unfolding create_table_for_new_user open_or_exit apply
  create_table_for_new_user-Runs md5 base64_decode my_name clock peers roster few h foreign =
      Runs-bind e q _ (Runs-bind e q _ (opens-Runs e q n) (Runs-pure e q tt n)) (
        Runs-bind e q _ (Runs-file e q path n) (
          rw c.key_file (
            Runs-bind e q _ (exec_opened-Runs e q (create_user_table name) n (c.table_name, c.free))
              (Runs-bind e q _
                (exec_opened-Runs e q (insert_user (new_user name key)) _ (c.plain, c.plain_key))
                (Runs-bind e q _ (Runs-write e q (removed path) _) (
                  Runs-bind e q _
                    (analyse_blockchein_for_user_name-Foreign e q base64_decode my_name clock
                      (with_user n name key path) (peers ++ entered name key ∷ []) name
                      (Roster-with_user peers roster few) md5 h foreign)
                    (Runs-pure e q true _)))))))
