-- ===== src/Keys.antt =====
-- The keys of the correspondents in GENERAL_TABLE, and the encryption of an outgoing message
-- (bcm-linux-console/Cpp_part.cpp). The mutex round each statement, the log and the console output
-- are left out.
pub mod Encrypt
pub mod Laws
pub mod Sequence
use blockchain_crypto_messan.Common.{
  ℕ, ◌+◌, Option, none, some, List, [], ◌∷◌, ◌++◌, length, get_or, drop, ltb, if◌then◌else◌,
}
use blockchain_crypto_messan.Common.Int.{ℤ, pos, negsuc, ◌+ℤ◌, ◌-ℤ◌, ltb_ℤ}
use blockchain_crypto_messan.Text.{Bytes, c_str, strncpy}
use blockchain_crypto_messan.Text.Decimal.{atoi}
use blockchain_crypto_messan.Pad.{xor_bytes}
use blockchain_crypto_messan.Program.{Exec, pure, undefined, ◌>>=◌, ◌>>◌}
use blockchain_crypto_messan.Sql.{
  Row, select_key, select_key_seek, select_key_size, update_key_seek,
}
use blockchain_crypto_messan.Sql.Engine.{Engine, World, sql_or_exit}

-- BUF_SIZE of Cpp_part.h
abbrev pub buf_size : ℕ
buf_size = 1000001

-- `argv[i]`, a C string
abbrev pub argv : Row → ℕ → Bytes
argv row i = c_str (get_or row i [])

-- `sqlite3_exec` calls the callback once for each row, in order.
abbrev pub each_row {ℓ} : {A : Type ℓ} → (A → Row → A) → A → List Row → A
each_row f acc [] = acc
each_row f acc (row ∷ rows) = each_row f (f acc row) rows

callback_select_key_seek_for_user : ℤ → Row → ℤ
callback_select_key_seek_for_user seek row = atoi (argv row 0)

callback_select_key_size_for_user : ℤ → Row → ℤ
callback_select_key_size_for_user key_size row = atoi (argv row 0)

-- The bytes of `key_buf` after `argv[0]` and its NUL have been written over its start. A string
-- that does not fit into BUF_SIZE bytes is written past its end.
callback_select_key_for_user : Option Bytes → Row → Option Bytes
callback_select_key_for_user none row = none
callback_select_key_for_user (some key_buf) row =
    if ltb (length (argv row 0)) buf_size
    then some (argv row 0 ++ 0 ∷ drop (length (argv row 0) + 1) key_buf)
    else none

abbrev pub in_bounds : {S A : Type 0} → Option A → Exec S A
in_bounds none = undefined
in_bounds (some a) = pure a

-- `strncpy(real_key, &key_buf[current_seek], n)`
pub copy_key : {S : Type 0} → Bytes → ℤ → ℕ → Exec S Bytes
copy_key key_buf (pos seek) n =
    if ltb seek buf_size then pure (strncpy n (drop seek key_buf)) else undefined
copy_key key_buf (negsuc seek) n = undefined

module _ (e : Engine) where
  unfoldable pub get_key_seek_for_user : Bytes → Exec (World e) ℤ
  unfolding callback_select_key_seek_for_user
  get_key_seek_for_user user_name = do
    rows ← sql_or_exit e (select_key_seek user_name)
    pure (each_row callback_select_key_seek_for_user (negsuc 0) rows)

  unfoldable pub get_key_size_for_user : Bytes → Exec (World e) ℤ
  unfolding callback_select_key_size_for_user
  get_key_size_for_user user_name = do
    rows ← sql_or_exit e (select_key_size user_name)
    pure (each_row callback_select_key_size_for_user (negsuc 0) rows)

  -- The buffer is zero-filled before the call.
  unfoldable pub get_key_for_user : Bytes → Exec (World e) Bytes
  unfolding callback_select_key_for_user
  get_key_for_user user_name = do
    rows ← sql_or_exit e (select_key user_name)
    in_bounds (each_row callback_select_key_for_user (some []) rows)

  unfoldable pub set_key_seek_for_user : Bytes → ℤ → Exec (World e) (Unit {0})
  set_key_seek_for_user user_name current_seek = do
    sql_or_exit e (update_key_seek current_seek user_name)
    pure tt

  -- `none` is the return of "error", which leaves `*res_enc` at 0. The bytes returned are those of
  -- the array `encrypt_message` when the function returns.
  unfoldable pub encrypt_text_message : Bytes → Bytes → Exec (World e) (Option Bytes)
  unfolding copy_key
  encrypt_text_message user_name text_message = do
    current_seek ← get_key_seek_for_user user_name
    let size_of_text_message = length (c_str text_message)
    key_size ← get_key_size_for_user user_name
    let diff = key_size -ℤ current_seek
    if ltb_ℤ diff (pos size_of_text_message -ℤ pos 1) then pure none else do
      key_buf ← get_key_for_user user_name
      real_key ← copy_key key_buf current_seek size_of_text_message
      set_key_seek_for_user user_name (current_seek +ℤ pos size_of_text_message)
      pure (some (xor_bytes (c_str text_message) real_key))
