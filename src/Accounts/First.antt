-- ===== src/Accounts/First.antt =====
-- Two nodes that have exchanged a key file (bcm-linux-console/Cpp_part.cpp): each registers the other,
-- and the first message arrives.
use blockchain_crypto_messan.Common.{
  ℕ, Bool, true, ◌+◌, ◌≤◌, ◌<◌, some, List, [], ◌∷◌, ◌++◌, arith, length, All,
}
use blockchain_crypto_messan.Common.Int.{ℤ, pos}
use blockchain_crypto_messan.Text.{Bytes}
use blockchain_crypto_messan.Program.{Exec, ◌>>=◌}
use blockchain_crypto_messan.Transaction.{compose}
use blockchain_crypto_messan.Pad.{xor_bytes}
use blockchain_crypto_messan.Pad.Laws.{IsHigh}
use blockchain_crypto_messan.Sql.Engine.{Engine, IsSqlite, World, Node, Runs, Runs-bind}
use blockchain_crypto_messan.Keys.{encrypt_text_message}
use blockchain_crypto_messan.Keys.Laws.{with_seek}
use blockchain_crypto_messan.Decrypt.{max_number_of_users, try_decrypt}
use blockchain_crypto_messan.Decrypt.Roster.{Peer, PassedOver}
use blockchain_crypto_messan.Decrypt.Delivery.{IsWord, stretch, delivery}
use blockchain_crypto_messan.Chain.Links.{IsChain}
use blockchain_crypto_messan.Analysis.Wrappers.{Roster}
use blockchain_crypto_messan.Analysis.Cursor.{Foreign}
use blockchain_crypto_messan.Accounts.{create_table_for_new_user}
use blockchain_crypto_messan.Accounts.Registered.{
  CanRegister, with_user, entered, Contact-with_user, Roster-with_user,
  create_table_for_new_user-Runs,
}

module _ (e : Engine) (q : IsSqlite e) (md5 base64_decode : Bytes → Bytes) (clock : ℤ → Bytes) where
  -- A node that can register a correspondent, and whose chain no key opens, before and after.
  pub record Ready (n : Node) (my_name name key path : Bytes) (peers : List Peer) : Type 0 where
    pub can : CanRegister n name key path
    pub roster : Roster e q n peers
    pub few : length peers < max_number_of_users
    pub chain : IsChain md5 n.blockchain
    pub foreign :
        All
          (Foreign e q base64_decode my_name clock
            (with_user n name key path)
            (peers ++ entered name key ∷ []))
          n.blockchain

  abbrev pub register : Bytes → Bytes → Bytes → Exec (World e) Bool
  register my_name name path = create_table_for_new_user e base64_decode my_name clock name path

  register-Runs :
      (n : Node) (my_name name key path : Bytes) (peers : List Peer)
      → Ready n my_name name key path peers
      → Runs e q (register my_name name path) n true (with_user n name key path)
  register-Runs n my_name name key path peers r =
      create_table_for_new_user-Runs e q n name key path r.can md5 base64_decode my_name clock peers
        r.roster r.few r.chain r.foreign

  -- Of two nodes that register each other with copies of one generated key file, the one opens the
  -- first message that the other seals for it, if the key is long enough, the texts are ASCII words,
  -- and the keys of its correspondents before pass over the message; both have used the same part of
  -- the key then.
  pub first_message :
      (sender receiver : Node) (me from key path_1 path_2 time message : Bytes) (id : ℕ)
      (peers_1 peers_2 : List Peer)
      → Ready sender from me key path_1 peers_1
      → Ready receiver me from key path_2 peers_2
      → IsHigh key
      → IsWord me
      → IsWord from
      → IsWord time
      → IsWord message
      → 0 < length me
      → 0 < length from
      → length (compose (pos id) me from time message) ≤ length key
      → PassedOver e q
          (with_user receiver from key path_2)
          me
          (xor_bytes
            (compose (pos id) me from time message)
            (stretch key 0 (length (compose (pos id) me from time message))))
          peers_2
      → let text = compose (pos id) me from time message in
        let sealed = xor_bytes text (stretch key 0 (length text)) in
        Runs e q
          (do _ ← register from me path_1; encrypt_text_message e me text)
          sender
          (some sealed)
          (with_seek (with_user sender me key path_1) me (pos (0 + length text)))
        × Runs e q
            (do _ ← register me from path_2; try_decrypt e me sealed)
            receiver
            (some text)
            (with_seek (with_user receiver from key path_2) from (pos (0 + length text)))
  first_message sender receiver me from key path_1 path_2 time message id peers_1 peers_2 r_1 r_2
        high hm hf ht hx lm lf enough over =
      let roster =
        Roster-with_user e q receiver from key path_2 r_2.can peers_2 r_2.roster r_2.few in
      let sent =
        delivery e q (with_user sender me key path_1) (with_user receiver from key path_2) key 0 id
          me from time message peers_2 [] (Contact-with_user sender me key path_1 r_1.can) roster.2
          roster.0 roster.1 high hm hf ht hx lm lf (omega arith) over in
      (
        Runs-bind e q _ (register-Runs sender from me key path_1 peers_1 r_1) sent.0,
        Runs-bind e q _ (register-Runs receiver me from key path_2 peers_2 r_2) sent.1,
      )
