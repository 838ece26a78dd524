-- ===== src/Accounts/Keyed.antt =====
-- A new key for a correspondent (bcm-linux-console/Cpp_part.cpp, update_key_file_for_user).
use blockchain_crypto_messan.Common.{
  ℕ, ◌≡◌, refl, ap, ◌∙◌, true, some, List, [], ◌∷◌, map, arith, length, ◌<◌, All,
}
use blockchain_crypto_messan.Common.Int.{ℤ, pos}
use blockchain_crypto_messan.Text.{Bytes}
use blockchain_crypto_messan.Sql.{UserRow, IsPlain, named, update_user, apply, update_key}
use blockchain_crypto_messan.Sql.Engine.{
  Engine, IsSqlite, Node, Runs, Runs-pure, Runs-bind, Runs-file, Runs-write,
}
use blockchain_crypto_messan.Keys.{buf_size}
use blockchain_crypto_messan.Keys.Laws.{Contact}
use blockchain_crypto_messan.Decrypt.Roster.{Peer, IsPlain-NoNul}
use blockchain_crypto_messan.Chain.{removed}
use blockchain_crypto_messan.Chain.Links.{IsChain}
use blockchain_crypto_messan.Analysis.Counters.{opens-Runs, exec_opened-Runs}
use blockchain_crypto_messan.Analysis.Wrappers.{Roster}
use blockchain_crypto_messan.Analysis.Cursor.{Foreign}
use blockchain_crypto_messan.Accounts.{open_or_exit, update_key_file_for_user}
use blockchain_crypto_messan.Accounts.Unopened.{analyse_blockchein_for_user_name-Foreign}

abbrev rekeyed_row : Bytes → UserRow → UserRow
rekeyed_row key r = record r { key = key; key_size = pos (length key); key_seek = pos 0 }

-- The node with the key in the place of the old one, and without the key file.
abbrev pub with_key : Node → Bytes → Bytes → Bytes → Node
with_key n user key path = record {
  tables = record n.tables { general = update_user user (rekeyed_row key) n.general };
  files = removed path n.files;
}

named-rekeyed_row :
    (user key : Bytes) (rows : List UserRow)
    → named user (update_user user (rekeyed_row key) rows) ≡ map (rekeyed_row key) (named user rows)
unfolding named update_user
named-rekeyed_row user key [] = refl
named-rekeyed_row user key (r ∷ rows) = ground (arith, named-rekeyed_row user key rows)

-- A correspondent with a new key has the whole of it before it, whatever was left of the old one.
pub Contact-with_key :
    {n : Node} {user old : Bytes} {seek : ℕ} (key path : Bytes)
    → Contact n user old seek
    → IsPlain key
    → length key < buf_size
    → Contact (with_key n user key path) user key 0
Contact-with_key {n} {user} key path c plain fits = record {
  new_message = c.new_message;
  plain = c.plain;
  row = named-rekeyed_row user key n.general ∙ ap (map (rekeyed_row key)) c.row;
  key_NoNul = IsPlain-NoNul key plain;
  key_fits = fits;
}

module _ (e : Engine) (q : IsSqlite e) where
  -- The key of a correspondent is replaced by the content of a file, which is removed, and its
  -- offset is at the start again, if the content fits the buffer of a key and has no quote and no
  -- NUL, the node has ten correspondents at most, and no key of it then opens a block of the
  -- linked chain.
  pub update_key_file_for_user-Runs :
      (n : Node) (user key path : Bytes) (md5 base64_decode : Bytes → Bytes) (my_name : Bytes)
      (clock : ℤ → Bytes) (peers : List Peer)
      → n.files path ≡ some key
      → IsPlain user
      → IsPlain key
      → Roster e q (with_key n user key path) peers
      → IsChain md5 n.blockchain
      → All (Foreign e q base64_decode my_name clock (with_key n user key path) peers) n.blockchain
      → Runs e q
          (update_key_file_for_user e base64_decode my_name clock user path)
          n
          true
          (with_key n user key path)
  unfolding update_key_file_for_user open_or_exit apply
  update_key_file_for_user-Runs n user key path md5 base64_decode my_name clock peers there plain
        plain_key roster h foreign =
      Runs-bind e q _ (Runs-bind e q _ (opens-Runs e q n) (Runs-pure e q tt n)) (
        Runs-bind e q _ (Runs-file e q path n) (
          rw there (
            Runs-bind e q _
              (exec_opened-Runs e q (update_key key (pos (length key)) (pos 0) user) n
                (plain_key, plain))
              (Runs-bind e q _ (Runs-write e q (removed path) _) (
                Runs-bind e q _
                  (analyse_blockchein_for_user_name-Foreign e q base64_decode my_name clock
                    (with_key n user key path) peers user roster md5 h foreign)
                  (Runs-pure e q true _))))))
