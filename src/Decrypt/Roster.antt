-- ===== src/Decrypt/Roster.antt =====
-- The list of the correspondents, and the loops of `try_decrypt` over it.
use blockchain_crypto_messan.Common.{
  ℕ, ◌+◌, ◌≤◌, ◌<◌, ◌≡◌, refl, ap, ◌∙◌, false, none, some, List, [], ◌∷◌, ◌++◌, map, length, arith,
  lt→ltb, append_assoc, append-nil, length-append, All,
}
use blockchain_crypto_messan.Common.Int.{pos, negsuc, ◌+ℤ◌}
use blockchain_crypto_messan.Text.{Bytes, NoNul, c_str-eq}
use blockchain_crypto_messan.Sql.{UserRow, query, apply, select_user_name, IsPlain, same_int}
use blockchain_crypto_messan.Sql.Engine.{
  Engine, IsSqlite, Node, Runs, Runs-pure, Runs-bind, run_sql-Runs,
}
use blockchain_crypto_messan.Keys.{each_row}
use blockchain_crypto_messan.Keys.Laws.{
  Contact, with_seek, get_key_seek_for_user-Runs, get_key_size_for_user-Runs, get_key_for_user-Runs,
  set_key_seek_for_user-Runs,
}
use blockchain_crypto_messan.Decrypt.{
  max_number_of_users, callback_select_user, Attempt, passed_over, decrypted, attempt,
  return_my_user_list, read_seeks, try_users, try_decrypt,
}

pub record Peer : Type 0 where
  pub user : Bytes
  pub key : Bytes
  pub seek : ℕ

pub IsPlain-NoNul : (s : Bytes) → IsPlain s → NoNul s
IsPlain-NoNul [] h = tt
IsPlain-NoNul (c ∷ s) h = (h.0.0, IsPlain-NoNul s h.1)

rows-names :
    (general : List UserRow) (peers : List Peer)
    → map (λ r. r.user_name) general ≡ map (λ x. x.user) peers
    → map (λ r. r.user_name ∷ []) general ≡ map (λ x. x.user ∷ []) peers
rows-names [] [] h = refl
rows-names [] (x ∷ peers) h = cc
rows-names (r ∷ general) [] h = cc
rows-names (r ∷ general) (x ∷ peers) h = ground (arith, rows-names general peers)

pub user_read :
    (got : List Bytes) (user : Bytes)
    → NoNul user
    → length got < max_number_of_users
    → callback_select_user (some got) (user ∷ []) ≡ some (got ++ user ∷ [])
unfolding callback_select_user
user_read got user h le = rw (c_str-eq user h, lt→ltb (length got) max_number_of_users le)

users_read :
    (peers : List Peer) (got : List Bytes)
    → All (λ x. NoNul x.user) peers
    → length got + length peers ≤ max_number_of_users
    → each_row callback_select_user (some got) (map (λ x. x.user ∷ []) peers)
      ≡ some (got ++ map (λ x. x.user) peers)
users_read [] got h le = rw append-nil
users_read (x ∷ peers) got h le =
    ap (λ a. each_row callback_select_user a (map (λ y. y.user ∷ []) peers))
      (user_read got x.user h.0 (omega arith))
    ∙ users_read peers (got ++ x.user ∷ []) h.1 (omega (arith, length-append got (x.user ∷ [])))
    ∙ ap some (append_assoc got (x.user ∷ []) _)

present : (seek : ℕ) → same_int (pos seek) (negsuc 0) ≡ false
present seek = ground arith

module _ (e : Engine) (q : IsSqlite e) (n : Node) where
  abbrev pub Known : List Peer → Type 0
  Known peers = All (λ x. Contact n x.user x.key x.seek) peers

  Known-NoNul : (peers : List Peer) → Known peers → All (λ x. NoNul x.user) peers
  Known-NoNul [] h = tt
  Known-NoNul (x ∷ peers) h = (IsPlain-NoNul x.user h.0.plain, Known-NoNul peers h.1)

  pub Known-before : (xs ys : List Peer) → Known (xs ++ ys) → Known xs
  Known-before [] ys h = tt
  Known-before (x ∷ xs) ys h = (h.0, Known-before xs ys h.1)

  pub Known-at :
      (xs : List Peer) (x : Peer) (ys : List Peer)
      → Known (xs ++ x ∷ ys)
      → Contact n x.user x.key x.seek
  Known-at [] x ys h = h.0
  Known-at (y ∷ xs) x ys h = Known-at xs x ys h.1

  pub return_my_user_list-Runs :
      (peers : List Peer)
      → Known peers
      → map (λ r. r.user_name) n.general ≡ map (λ x. x.user) peers
      → length peers ≤ max_number_of_users
      → Runs e q (return_my_user_list e) n (some (map (λ x. x.user) peers)) n
  unfolding return_my_user_list query apply
  return_my_user_list-Runs peers known names le =
      Runs-bind e q _ (run_sql-Runs e q select_user_name n tt) (
        rw
          (
            rows-names n.general peers names,
            users_read peers [] (Known-NoNul peers known) (omega arith),
          )
          (Runs-bind e q _ (Runs-pure e q _ _) (Runs-pure e q _ _)))

  pub read_seeks-Runs :
      (peers : List Peer)
      → Known peers
      → Runs e q
          (read_seeks e (map (λ x. x.user) peers))
          n
          (map (λ x. (x.user, pos x.seek)) peers)
          n
  unfolding read_seeks
  read_seeks-Runs [] known = Runs-pure e q _ n
  read_seeks-Runs (x ∷ peers) known =
      Runs-bind e q _ (get_key_seek_for_user-Runs e q known.0)
        (rw (present x.seek) (Runs-bind e q _ (read_seeks-Runs peers known.1) (Runs-pure e q _ n)))

  module _ (my_name : Bytes) (message : Bytes) where
    abbrev pub tried : Peer → Attempt
    tried x = attempt my_name x.user (x.key ++ 0 ∷ []) (pos (length x.key)) (pos x.seek) message

    abbrev pub PassedOver : List Peer → Type 0
    PassedOver peers = All (λ x. tried x ≡ passed_over) peers

    -- The loop returns what the first key gives that is not passed over.
    try_users-Runs :
        (before : List Peer) (x : Peer) (after : List Peer) (text : Bytes)
        → Known before
        → Contact n x.user x.key x.seek
        → PassedOver before
        → tried x ≡ decrypted text
        → Runs e q
            (try_users e my_name message (map (λ y. (y.user, pos y.seek)) (before ++ x ∷ after)))
            n
            (some text)
            (with_seek n x.user (pos x.seek +ℤ pos (length message)))
    unfolding try_users
    try_users-Runs [] x after text known c over hit =
        Runs-bind e q _ (get_key_for_user-Runs e q c) (
          Runs-bind e q _ (get_key_size_for_user-Runs e q c)
            (rw hit (Runs-bind e q _ (set_key_seek_for_user-Runs e q c _) (Runs-pure e q _ _))))
    try_users-Runs (y ∷ before) x after text known c over hit =
        Runs-bind e q _ (get_key_for_user-Runs e q known.0) (
          Runs-bind e q _ (get_key_size_for_user-Runs e q known.0)
            (rw over.0 (try_users-Runs before x after text known.1 c over.1 hit)))

    -- The first peer whose key gives a text addressed from or to this node decides: its text is
    -- returned, its offset moves behind the message, and nothing else of the node changes.
    pub try_decrypt-Runs :
        (before : List Peer) (x : Peer) (after : List Peer) (text : Bytes)
        → NoNul message
        → map (λ r. r.user_name) n.general ≡ map (λ y. y.user) (before ++ x ∷ after)
        → length (before ++ x ∷ after) ≤ max_number_of_users
        → Known (before ++ x ∷ after)
        → PassedOver before
        → tried x ≡ decrypted text
        → Runs e q
            (try_decrypt e my_name message)
            n
            (some text)
            (with_seek n x.user (pos x.seek +ℤ pos (length message)))
    unfolding try_decrypt
    try_decrypt-Runs before x after text clean names le known over hit =
        let known_before = Known-before before (x ∷ after) known in
        Runs-bind e q _ (return_my_user_list-Runs (before ++ x ∷ after) known names le) (
          rw (c_str-eq message clean) (
            Runs-bind e q _ (read_seeks-Runs (before ++ x ∷ after) known) (
              try_users-Runs before x after text known_before (Known-at before x after known) over
                hit)))

    try_users-none :
        (peers : List Peer)
        → Known peers
        → PassedOver peers
        → Runs e q (try_users e my_name message (map (λ y. (y.user, pos y.seek)) peers)) n none n
    unfolding try_users
    try_users-none [] known over = Runs-pure e q _ _
    try_users-none (y ∷ peers) known over = Runs-bind e q _ (get_key_for_user-Runs e q known.0) (
        Runs-bind e q _ (get_key_size_for_user-Runs e q known.0)
          (rw over.0 (try_users-none peers known.1 over.1)))

    -- A transaction that the keys of all correspondents, ten at most, pass over is refused, and the node
    -- stays as it was.
    pub try_decrypt-none :
        (peers : List Peer)
        → NoNul message
        → map (λ r. r.user_name) n.general ≡ map (λ y. y.user) peers
        → length peers ≤ max_number_of_users
        → Known peers
        → PassedOver peers
        → Runs e q (try_decrypt e my_name message) n none n
    unfolding try_decrypt
    try_decrypt-none peers clean names le known over =
        Runs-bind e q _ (return_my_user_list-Runs peers known names le) (
          rw (c_str-eq message clean)
            (Runs-bind e q _ (read_seeks-Runs peers known) (try_users-none peers known over)))
