-- ===== src/Decrypt.antt =====
-- `try_decrypt` of bcm-linux-console/Cpp_part.cpp: a transaction of the chain is tried under the
-- key of each correspondent, until one gives a text addressed to or from this node.
pub mod Delivery
pub mod Faulting
pub mod Overrun
pub mod Roster
pub mod Separators
use blockchain_crypto_messan.Common.{
  ℕ, ◌+◌, ◌-◌, Bool, true, false, Option, none, some, List, [], ◌∷◌, ◌++◌, ◌&&◌, ◌||◌, length, drop,
  ltb, ◌==◌, if◌then◌else◌, text_eq,
}
use blockchain_crypto_messan.Common.Int.{ℤ, pos, negsuc, ◌+ℤ◌, ◌-ℤ◌, ltb_ℤ}
use blockchain_crypto_messan.Text.{Bytes, c_str, strncpy}
use blockchain_crypto_messan.Pad.{xor_bytes}
use blockchain_crypto_messan.Program.{Exec, pure, exit, undefined, ◌>>=◌, ◌>>◌}
use blockchain_crypto_messan.Transaction.{separator, field}
use blockchain_crypto_messan.Sql.{Row, select_user_name, same_int}
use blockchain_crypto_messan.Sql.Engine.{
  Engine, World, Reply, cannot_open, sql_error, selected, run_sql,
}
use blockchain_crypto_messan.Keys.{
  buf_size, argv, each_row, in_bounds, get_key_seek_for_user, get_key_size_for_user,
  get_key_for_user, set_key_seek_for_user,
}

-- MAX_NUMBER_OF_USERS of Cpp_part.h
abbrev pub max_number_of_users : ℕ
max_number_of_users = 10

-- The names in `user_list[0 .. pointer)`; the array has MAX_NUMBER_OF_USERS places, and the
-- callback writes a further name behind it.
pub callback_select_user : Option (List Bytes) → Row → Option (List Bytes)
callback_select_user none row = none
callback_select_user (some user_list) row =
    if ltb (length user_list) max_number_of_users then some (user_list ++ argv row 0 ∷ []) else none

-- Where the first loop over the separators ends: `begin`, `end`, and whether it stopped by `break`,
-- with `ch` below the size.
pub record Span : Type 0 where
  pub begin : ℕ
  pub last : ℕ
  pub stopped : Bool

pub first_two : Bytes → ℕ → ℕ → ℕ → Span
first_two [] ch count_separate begin = record { begin = begin; last = 0; stopped = false }
first_two (c ∷ rest) ch count_separate begin =
    let next =
      first_two rest (ch + 1) (if c == separator then count_separate + 1 else count_separate)
        (if c == separator && count_separate == 0 then ch + 1 else begin) in
    if c == separator && count_separate == 1
    then record { begin = begin; last = ch - 1; stopped = true }
    else next

-- The second loop, `for(ch1;ch<size;ch1++)`: its test does not change, so it ends at the third
-- separator, or reads behind the buffer.
pub second_third : Bytes → ℕ → ℕ → ℕ → Option (ℕ × ℕ)
second_third [] ch1 count_separate1 begin1 = none
second_third (c ∷ rest) ch1 count_separate1 begin1 =
    let next =
      second_third rest (ch1 + 1) (if c == separator then count_separate1 + 1 else count_separate1)
        (if c == separator && count_separate1 == 1 then ch1 + 1 else begin1) in
    if c == separator && count_separate1 == 2 then some (begin1, ch1 - 1) else next

-- What a decrypted buffer says: it is passed over, the program reads behind it, or its first two
-- fields behind the number.
pub data Names : Type 0 where
  unreadable : Names
  overrun : Names
  named_by : Bytes → Bytes → Names

second_name : Bytes → Bytes → Option (ℕ × ℕ) → Names
second_name dec who_sender none = overrun
second_name dec who_sender (some (begin1, end1)) =
    if ltb end1 begin1
    then unreadable
    else named_by who_sender (field dec begin1 (end1 - begin1 + 1))

-- `dec` is `ckeck_decrypt`, without the NUL behind it.
pub names_in : Bytes → Names
unfolding first_two second_third second_name
names_in dec =
    let span = first_two dec 0 0 0 in
    let who_sender = field dec span.begin (span.last - span.begin + 1) in
    if ltb span.last span.begin
    then unreadable
    else if span.stopped
    then second_name dec who_sender (second_third (dec ++ 0 ∷ []) 0 0 0)
    else named_by who_sender (field dec 0 1)

pub is_addressed : Bytes → Bytes → Bytes → Bytes → Bool
is_addressed my_name user who_sender who_reciever =
    (text_eq who_sender my_name || text_eq who_reciever my_name)
    && (text_eq who_sender user || text_eq who_reciever user)

pub data Attempt : Type 0 where
  passed_over : Attempt
  reads_behind : Attempt
  decrypted : Bytes → Attempt

pub judge : Bytes → Bytes → Bytes → Names → Attempt
unfolding is_addressed
judge my_name user dec unreadable = passed_over
judge my_name user dec overrun = reads_behind
judge my_name user dec (named_by who_sender who_reciever) =
    if is_addressed my_name user who_sender who_reciever then decrypted (c_str dec) else passed_over

-- One round of the loop over the users, from the key and its offset on.
unfoldable pub attempt : Bytes → Bytes → Bytes → ℤ → ℤ → Bytes → Attempt
unfolding names_in judge
attempt my_name user key_buf key_size (negsuc seek) encrypted_message =
    if ltb_ℤ (key_size -ℤ negsuc seek) (pos (length encrypted_message) -ℤ pos 1)
    then passed_over
    else reads_behind
attempt my_name user key_buf key_size (pos seek) encrypted_message =
    let size_of_encrypt_message = length encrypted_message in
    let real_key = strncpy size_of_encrypt_message (drop seek key_buf) in
    let ckeck_decrypt = xor_bytes encrypted_message real_key in
    if ltb_ℤ (key_size -ℤ pos seek) (pos size_of_encrypt_message -ℤ pos 1)
    then passed_over
    else if ltb seek buf_size
    then judge my_name user ckeck_decrypt (names_in ckeck_decrypt)
    else reads_behind

module _ (e : Engine) where
  abbrev users_of : Reply → Exec (World e) (Option (List Bytes))
  users_of cannot_open = pure none
  users_of sql_error = exit
  users_of (selected rows) = do
    user_list ← in_bounds (each_row callback_select_user (some []) rows)
    pure (some user_list)

  -- `none` is the return of -1.
  unfoldable pub return_my_user_list : Exec (World e) (Option (List Bytes))
  unfolding callback_select_user
  return_my_user_list = do reply ← run_sql e select_user_name; users_of reply

  -- The offsets of the keys, read before the first attempt.
  unfoldable pub read_seeks : List Bytes → Exec (World e) (List (Bytes × ℤ))
  read_seeks [] = pure []
  read_seeks (user ∷ users) = do
    res_seek ← get_key_seek_for_user e user
    if same_int res_seek (negsuc 0)
        then exit
        else do seeks_keys ← read_seeks users; pure ((user, res_seek) ∷ seeks_keys)

  module _ (my_name : Bytes) where
    abbrev conclude :
        Bytes → ℤ → ℕ → Exec (World e) (Option Bytes) → Attempt → Exec (World e) (Option Bytes)
    conclude user seek size others passed_over = others
    conclude user seek size others reads_behind = undefined
    conclude user seek size others (decrypted text) = do
      set_key_seek_for_user e user (seek +ℤ pos size)
      pure (some text)

    -- `none` is the return of 1, and `some` that of 0 with the text in `*encrypt_mess_DEC`.
    unfoldable pub try_users : Bytes → List (Bytes × ℤ) → Exec (World e) (Option Bytes)
    try_users encrypted_message [] = pure none
    try_users encrypted_message ((user, current_seek) ∷ rest) = do
      key_buf ← get_key_for_user e user
      key_size ← get_key_size_for_user e user
      conclude user current_seek (length encrypted_message) (try_users encrypted_message rest)
          (attempt my_name user key_buf key_size current_seek encrypted_message)

    abbrev listed : Bytes → Option (List Bytes) → Exec (World e) (Option Bytes)
    listed encrypted_message none = exit
    listed encrypted_message (some users_list) = do
      seeks_keys ← read_seeks users_list
      try_users encrypted_message seeks_keys

    unfoldable pub try_decrypt : Bytes → Exec (World e) (Option Bytes)
    try_decrypt encrypt_mess = do struct1 ← return_my_user_list; listed (c_str encrypt_mess) struct1
