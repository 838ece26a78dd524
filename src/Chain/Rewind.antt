-- ===== src/Chain/Rewind.antt =====
-- The loop of `key_seek_zero_for_all_users` (bcm-linux-console/Cpp_part.cpp) over the correspondents.
use blockchain_crypto_messan.Common.{
  ◌+◌, ◌≤◌, ◌≡◌, refl, sym, ap, ap₂, subst, ◌∙◌, some, List, [], ◌∷◌, ◌++◌, map, length, arith, All,
  length-append, map-append, append-nil, append_assoc, if◌then◌else◌, text_eq, text_eq_refl,
  Bool-cases, inl, inr,
}
use blockchain_crypto_messan.Common.Int.{pos}
use blockchain_crypto_messan.Text.{Bytes}
use blockchain_crypto_messan.Sql.{
  UserRow, query, apply, update_user, IsPlain, select_key_size, select_user_name, update_key_seek,
}
use blockchain_crypto_messan.Sql.Engine.{
  Engine, IsSqlite, Node, Runs, Runs-pure, Runs-bind, sql_or_exit-Runs, run_sql-Runs,
}
use blockchain_crypto_messan.Keys.{each_row, get_key_size_for_user, set_key_seek_for_user}
use blockchain_crypto_messan.Decrypt.{
  max_number_of_users, callback_select_user, return_my_user_list,
}
use blockchain_crypto_messan.Decrypt.Roster.{IsPlain-NoNul, user_read}
use blockchain_crypto_messan.Chain.{zero_seeks, key_seek_zero_for_all_users}

-- A row whose key is used from its start.
abbrev pub rewound : UserRow → UserRow
rewound r = record r { key_seek = pos 0 }

-- The correspondents fit `user_list`, and their names can stand in a statement.
abbrev pub Listed : List UserRow → Type 0
Listed rows = All (λ r. IsPlain r.user_name) rows × (length rows ≤ max_number_of_users)

-- The updates of the loop, one name after the other.
abbrev rewind : List Bytes → List UserRow → List UserRow
rewind [] rows = rows
rewind (user ∷ users) rows = rewind users (update_user user rewound rows)

abbrev rewind_row : List Bytes → UserRow → UserRow
rewind_row [] r = r
rewind_row (user ∷ users) r = rewind_row users (if text_eq r.user_name user then rewound r else r)

rewind-nil : (users : List Bytes) → rewind users [] ≡ []
unfolding update_user
rewind-nil [] = refl
rewind-nil (user ∷ users) = rewind-nil users

rewind-cons :
    (users : List Bytes) (r : UserRow) (rows : List UserRow)
    → rewind users (r ∷ rows) ≡ rewind_row users r ∷ rewind users rows
unfolding update_user
rewind-cons [] r rows = refl
rewind-cons (user ∷ users) r rows = rewind-cons users _ (update_user user rewound rows)

rewind_row-rewound : (users : List Bytes) (r : UserRow) → rewind_row users (rewound r) ≡ rewound r
rewind_row-rewound [] r = refl
rewind_row-rewound (user ∷ users) r = elim (Bool-cases (text_eq r.user_name user)) [
  | inl h ↦ rw h (rewind_row-rewound users r)
  | inr h ↦ rw h (rewind_row-rewound users r)
]

-- A row whose name is on the list is rewound.
rewind_row-listed :
    (before : List Bytes) (r : UserRow) (after : List Bytes)
    → rewind_row (before ++ r.user_name ∷ after) r ≡ rewound r
rewind_row-listed [] r after =
    rw (rewind_row, text_eq_refl r.user_name) (rewind_row-rewound after r)
rewind_row-listed (user ∷ before) r after = elim (Bool-cases (text_eq r.user_name user)) [
  | inl h ↦ rw (rewind_row, h) (rewind_row-rewound (before ++ r.user_name ∷ after) r)
  | inr h ↦ rw (rewind_row, h) (rewind_row-listed before r after)
]

rewind_all :
    (before rows : List UserRow)
    → rewind (map (λ r. r.user_name) (before ++ rows)) rows ≡ map rewound rows
rewind_all before [] = rewind-nil (map (λ r. r.user_name) (before ++ []))
rewind_all before (r ∷ rows) =
    let names : map (λ x. x.user_name) (before ++ r ∷ rows)
        ≡ map (λ x. x.user_name) before ++ r.user_name ∷ map (λ x. x.user_name) rows =
      map-append (λ x. x.user_name) before (r ∷ rows) in
    rewind-cons (map (λ x. x.user_name) (before ++ r ∷ rows)) r rows
    ∙ ap₂ (λ x xs. x ∷ xs)
        (ap (λ l. rewind_row l r) names ∙ rewind_row-listed (map (λ x. x.user_name) before) r _)
        (ap (λ l. rewind (map (λ x. x.user_name) l) rows) (sym (append_assoc before (r ∷ []) rows))
          ∙ rewind_all (before ++ r ∷ []) rows)

abbrev pub with_users : Node → List UserRow → Node
with_users n rows = record n { tables = record n.tables { general = rows } }

module _ (e : Engine) (q : IsSqlite e) where
  -- One turn of the loop.
  zero_one-Runs :
      (n : Node) (user : Bytes)
      → IsPlain user
      → Runs e q
          (set_key_seek_for_user e user (pos 0))
          n
          tt
          (with_users n (update_user user rewound n.general))
  unfolding set_key_seek_for_user apply
  zero_one-Runs n user plain =
      Runs-bind e q _ (sql_or_exit-Runs e q (update_key_seek (pos 0) user) n plain)
        (Runs-pure e q _ _)

  zero_seeks-Runs :
      (users : List Bytes) (n : Node)
      → All IsPlain users
      → Runs e q (zero_seeks e users) n tt (with_users n (rewind users n.general))
  unfolding zero_seeks get_key_size_for_user apply
  zero_seeks-Runs [] n h = Runs-pure e q _ _
  zero_seeks-Runs (user ∷ users) n h =
      Runs-bind e q _
        (Runs-bind e q _ (sql_or_exit-Runs e q (select_key_size user) n h.0) (Runs-pure e q _ _))
        (Runs-bind e q _ (zero_one-Runs n user h.0) (zero_seeks-Runs users _ h.1))

  names_read :
      (rows : List UserRow) (got : List Bytes)
      → All (λ r. IsPlain r.user_name) rows
      → length got + length rows ≤ max_number_of_users
      → each_row callback_select_user (some got) (map (λ r. r.user_name ∷ []) rows)
        ≡ some (got ++ map (λ r. r.user_name) rows)
  names_read [] got h le = ap some (sym (append-nil got))
  names_read (r ∷ rows) got h le =
      ap (λ a. each_row callback_select_user a (map (λ y. y.user_name ∷ []) rows))
        (user_read got r.user_name (IsPlain-NoNul _ h.0) (omega arith))
      ∙ names_read rows (got ++ r.user_name ∷ []) h.1
          (omega (arith, length-append got (r.user_name ∷ [])))
      ∙ ap some (append_assoc got (r.user_name ∷ []) _)

  names-IsPlain :
      (rows : List UserRow)
      → All (λ r. IsPlain r.user_name) rows
      → All IsPlain (map (λ r. r.user_name) rows)
  names-IsPlain [] h = tt
  names-IsPlain (r ∷ rows) h = (h.0, names-IsPlain rows h.1)

  return_my_user_list-Runs :
      (n : Node)
      → Listed n.general
      → Runs e q (return_my_user_list e) n (some (map (λ r. r.user_name) n.general)) n
  unfolding return_my_user_list query apply
  return_my_user_list-Runs n h = Runs-bind e q _ (run_sql-Runs e q select_user_name n tt) (
      rw (names_read n.general [] h.0 (omega (arith, h.1)))
        (Runs-bind e q _ (Runs-pure e q _ _) (Runs-pure e q _ _)))

  -- Every correspondent's key is used from its start again.
  pub key_seek_zero_for_all_users-Runs :
      (n : Node)
      → Listed n.general
      → Runs e q (key_seek_zero_for_all_users e) n tt (with_users n (map rewound n.general))
  unfolding key_seek_zero_for_all_users
  key_seek_zero_for_all_users-Runs n h = Runs-bind e q _ (return_my_user_list-Runs n h) (
      subst
        (λ rows.
          Runs e q (zero_seeks e (map (λ r. r.user_name) n.general)) n tt (with_users n rows))
        (rewind_all [] n.general)
        (zero_seeks-Runs (map (λ r. r.user_name) n.general) n (names-IsPlain n.general h.0)))
