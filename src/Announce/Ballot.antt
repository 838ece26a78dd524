-- ===== src/Announce/Ballot.antt =====
-- The answers of the peers to an announced transaction (`send_message_i2pd` of
-- bcm-linux-console/Cpp_part.cpp).
use blockchain_crypto_messan.Common.{
  ℕ, ◌+◌, ◌<◌, ◌≡◌, true, false, some, List, [], ◌∷◌, ◌++◌, arith, length, leb, text_eq,
  text_eq_refl,
}
use blockchain_crypto_messan.Text.{Bytes}
use blockchain_crypto_messan.Program.{Exec, returned, gets, ◌>>=◌}
use blockchain_crypto_messan.Sql.Engine.{
  Engine, IsSqlite, World, Node, Runs, Runs-pure, Runs-bind, Runs-file,
}
use blockchain_crypto_messan.Wire.{message, Call, no_response, get_hash_or_blockchain_i2pd}
use blockchain_crypto_messan.Wire.Client.{IsSilent, get_hash_or_blockchain_i2pd-silent}
use blockchain_crypto_messan.Vote.{Network, gag, keys_folder, own_destination}
use blockchain_crypto_messan.Vote.Adopt.{own_of}
use blockchain_crypto_messan.Announce.{
  answer_length, public_send_message, own_answer, answer_entry, ask_answer, ballot,
}

-- The answers to the request `text`: at each place the request itself, one that the peer answers,
-- or `gag` where the peer does not answer.
pub data Cast (network : Network) (pd text : Bytes) : ℕ → List Bytes → List Bytes → Type 0 where
  cast_all : {j : ℕ} → Cast network pd text j [] []
  cast_self :
      {j : ℕ} {peer : Bytes} {peers answers : List Bytes}
      → text_eq peer pd ≡ true
      → Cast network pd text (j + 1) peers answers
      → Cast network pd text j (peer ∷ peers) (text ∷ answers)
  cast_silence :
      {j : ℕ} {peer : Bytes} {peers answers : List Bytes}
      → text_eq peer pd ≡ false
      → IsSilent (network j peer (message text))
      → Cast network pd text (j + 1) peers answers
      → Cast network pd text j (peer ∷ peers) (gag ∷ answers)
  cast_answer :
      {j : ℕ} {peer a : Bytes} {peers answers : List Bytes}
      → text_eq peer pd ≡ false
      → get_hash_or_blockchain_i2pd answer_length (message text) (network j peer (message text))
        ≡ returned a
      → text_eq a (no_response (message text)) ≡ false
      → length a < answer_length
      → Cast network pd text (j + 1) peers answers
      → Cast network pd text j (peer ∷ peers) (a ∷ answers)

module _ (e : Engine) (q : IsSqlite e) (text : Bytes) (n : Node)
    (fits : length text + 1 < answer_length) where
  pub own_answer-Runs : Runs e q (own_answer e text) n text n
  own_answer-Runs =
      let below : leb answer_length (length text + 1) ≡ false = ground arith in
      rw below (Runs-pure e q text n)

  ask_answer-silent : (call : Call) → IsSilent call → Runs e q (ask_answer e text call) n gag n
  unfolding ask_answer answer_entry
  ask_answer-silent call out =
      rw (get_hash_or_blockchain_i2pd-silent answer_length (message text) call out) (
        Runs-bind e q _ (Runs-pure e q (no_response (message text)) n) (
          rw (text_eq_refl (no_response (message text)))
            (Runs-bind e q _ own_answer-Runs (Runs-pure e q gag n))))

  ask_answer-answered :
      (call : Call) (a : Bytes)
      → get_hash_or_blockchain_i2pd answer_length (message text) call ≡ returned a
      → text_eq a (no_response (message text)) ≡ false
      → length a < answer_length
      → Runs e q (ask_answer e text call) n a n
  unfolding ask_answer answer_entry
  ask_answer-answered call a is some_answer short =
      let below : leb answer_length (length a) ≡ false = ground arith in
      rw is (Runs-bind e q _ (Runs-pure e q a n) (rw (some_answer, below) (Runs-pure e q a n)))

  module _ (my_name content : Bytes) (c : ℕ)
      (own_file : n.files (keys_folder ++ my_name ++ public_send_message)
        ≡ some (c ∷ content)) where
    own_destination-Runs :
        {B : Type 0} (f : Bytes → Exec (World e) B) (b : B)
        → Runs e q (f (own_of (c ∷ content))) n b n
        → Runs e q
            (do
              own ← gets (λ w. w.files (keys_folder ++ my_name ++ public_send_message))
              pd ← own_destination e own
              f pd)
            n
            b
            n
    unfolding own_destination
    own_destination-Runs f b later =
        Runs-bind e q _ (Runs-file e q (keys_folder ++ my_name ++ public_send_message) n)
          (rw own_file (Runs-bind e q _ (Runs-pure e q (own_of (c ∷ content)) n) later))

    pub ballot-Runs :
        {network : Network} {j : ℕ} {peers answers : List Bytes}
        → Cast network (own_of (c ∷ content)) text j peers answers
        → Runs e q (ballot e network my_name text j peers) n answers n
    unfolding ballot
    ballot-Runs cast_all = Runs-pure e q _ _
    ballot-Runs (cast_self self rest) = own_destination-Runs _ _ (
        Runs-bind e q _ (rw self own_answer-Runs)
          (Runs-bind e q _ (ballot-Runs rest) (Runs-pure e q _ _)))
    ballot-Runs (cast_silence other out rest) = own_destination-Runs _ _ (
        Runs-bind e q _ (rw other (ask_answer-silent _ out))
          (Runs-bind e q _ (ballot-Runs rest) (Runs-pure e q _ _)))
    ballot-Runs (cast_answer other is some_answer short rest) = own_destination-Runs _ _ (
        Runs-bind e q _ (rw other (ask_answer-answered _ _ is some_answer short))
          (Runs-bind e q _ (ballot-Runs rest) (Runs-pure e q _ _)))
