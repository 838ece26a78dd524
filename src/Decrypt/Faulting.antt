-- ===== src/Decrypt/Faulting.antt =====
-- The loops of `try_decrypt` (bcm-linux-console/Cpp_part.cpp) up to a key under which the search for
-- the names reads behind the buffer.
use blockchain_crypto_messan.Common.{◌≤◌, ◌≡◌, refl, ap, ◌∙◌, List, [], ◌∷◌, ◌++◌, map, length}
use blockchain_crypto_messan.Common.Int.{pos}
use blockchain_crypto_messan.Text.{Bytes, NoNul, c_str-eq}
use blockchain_crypto_messan.Program.{Exec, fault, undefined, ◌>>=◌, >>=-returned}
use blockchain_crypto_messan.Sql.Engine.{Engine, IsSqlite, Node, World, view, Runs}
use blockchain_crypto_messan.Keys.Laws.{Contact, get_key_size_for_user-Runs, get_key_for_user-Runs}
use blockchain_crypto_messan.Decrypt.{max_number_of_users, reads_behind, try_users, try_decrypt}
use blockchain_crypto_messan.Decrypt.Roster.{
  Peer, Known, Known-before, Known-at, PassedOver, tried, return_my_user_list-Runs, read_seeks-Runs,
}

module _ (e : Engine) (q : IsSqlite e) (n : Node) where
  -- From any world with the view `n`, `m` ends in undefined behaviour.
  pub record Faults {A : Type 0} (m : Exec (World e) A) : Type 0 where
    pub at : (w : World e) → view e q w ≡ n → (m w).0 ≡ fault

  Faults-undefined : {A : Type 0} → Faults (undefined {A = A})
  Faults-undefined = record { at = λ w v. refl }

  -- A part that leaves the node as it is hands on to a rest that faults.
  Faults-bind :
      {A B : Type 0} {m : Exec (World e) A} (f : A → Exec (World e) B) {a : A}
      → Runs e q m n a n
      → Faults (f a)
      → Faults (m >>= f)
  Faults-bind {m} f r k = record {
    at = λ w v. let (w₁, e₁, v₁) = r.at w v in ap (λ x. x.0) (>>=-returned m f w e₁) ∙ k.at w₁ v₁;
  }

  module _ (my_name : Bytes) (message : Bytes) where
    try_users-overrun :
        (before : List Peer) (x : Peer) (after : List Peer)
        → Known e q n before
        → Contact n x.user x.key x.seek
        → PassedOver e q n my_name message before
        → tried e q n my_name message x ≡ reads_behind
        → Faults
            (try_users e my_name message (map (λ y. (y.user, pos y.seek)) (before ++ x ∷ after)))
    unfolding try_users
    try_users-overrun [] x after known c over hit =
        Faults-bind _ (get_key_for_user-Runs e q c)
          (Faults-bind _ (get_key_size_for_user-Runs e q c) (rw hit Faults-undefined))
    try_users-overrun (y ∷ before) x after known c over hit =
        Faults-bind _ (get_key_for_user-Runs e q known.0) (
          Faults-bind _ (get_key_size_for_user-Runs e q known.0)
            (rw over.0 (try_users-overrun before x after known.1 c over.1 hit)))

    -- The first peer whose key does not pass over the message decides also where the search for the
    -- names reads behind the buffer.
    pub try_decrypt-reads_behind :
        (before : List Peer) (x : Peer) (after : List Peer)
        → NoNul message
        → map (λ r. r.user_name) n.general ≡ map (λ y. y.user) (before ++ x ∷ after)
        → length (before ++ x ∷ after) ≤ max_number_of_users
        → Known e q n (before ++ x ∷ after)
        → PassedOver e q n my_name message before
        → tried e q n my_name message x ≡ reads_behind
        → Faults (try_decrypt e my_name message)
    unfolding try_decrypt
    try_decrypt-reads_behind before x after clean names le known over hit =
        Faults-bind _ (return_my_user_list-Runs e q n (before ++ x ∷ after) known names le) (
          rw (c_str-eq message clean) (
            Faults-bind _ (read_seeks-Runs e q n (before ++ x ∷ after) known) (
              try_users-overrun before x after (Known-before e q n before (x ∷ after) known)
                (Known-at e q n before x after known) over hit)))
