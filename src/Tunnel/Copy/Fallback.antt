-- ===== src/Tunnel/Copy/Fallback.antt =====
-- What a node fetches over SSL when the elected peer does not send its chain
-- (bcm-linux-console/C_part.c, get_actual_blockchain_copy).
use blockchain_crypto_messan.Common.{
  ℕ, zero, suc, ◌+◌, ◌<◌, ◌≡◌, false, true, List, [], ◌∷◌, arith, length, leb, get_or, text_eq,
  text_eq_refl,
}
use blockchain_crypto_messan.Text.{Bytes}
use blockchain_crypto_messan.Program.{returned}
use blockchain_crypto_messan.Sql.Engine.{
  Engine, IsSqlite, Node, Runs, Runs-pure, Runs-bind, Runs-write,
}
use blockchain_crypto_messan.Wire.{hash, blockchain, no_response}
use blockchain_crypto_messan.Vote.{
  elect, own_hash, entry, gag, hex_length, stored, actual_blockchain,
}
use blockchain_crypto_messan.Text.{c_str}
use blockchain_crypto_messan.Tunnel.{Settings, SslNetwork, own_entry, called}
use blockchain_crypto_messan.Tunnel.Copy.{
  hash_word, blockchain_word, ssl_poll, fetch_back, copy_from,
}

-- The hashes that the polling finds, from the `j`-th call on.
pub data Polled (o : Settings) (network : SslNetwork) (own : Bytes)
    : ℕ → List Bytes → List Bytes → Type 0 where
  polled_all : {j : ℕ} → Polled o network own j [] []
  polled_self :
      {j : ℕ} {peer : Bytes} {peers hashes : List Bytes}
      → text_eq peer (own_entry o) ≡ true
      → Polled o network own (j + 1) peers hashes
      → Polled o network own j (peer ∷ peers) (own ∷ hashes)
  polled_silence :
      {j : ℕ} {peer : Bytes} {peers hashes : List Bytes}
      → text_eq peer (own_entry o) ≡ false
      → called o network j peer hash_word ≡ returned (no_response hash)
      → Polled o network own (j + 1) peers hashes
      → Polled o network own j (peer ∷ peers) (gag ∷ hashes)
  polled_hash :
      {j : ℕ} {peer h : Bytes} {peers hashes : List Bytes}
      → text_eq peer (own_entry o) ≡ false
      → called o network j peer hash_word ≡ returned h
      → text_eq h (no_response hash) ≡ false
      → length h < hex_length
      → Polled o network own (j + 1) peers hashes
      → Polled o network own j (peer ∷ peers) (h ∷ hashes)

module _ (e : Engine) (q : IsSqlite e) (o : Settings) (network : SslNetwork) (n : Node)
    (own : Bytes) (mine : Runs e q (own_hash e) n own n) where
  ssl_poll-Runs :
      {j : ℕ} {peers hashes : List Bytes}
      → Polled o network own j peers hashes
      → Runs e q (ssl_poll e o network j peers) n hashes n
  unfolding ssl_poll entry
  ssl_poll-Runs polled_all = Runs-pure e q _ _
  ssl_poll-Runs (polled_self self rest) =
      Runs-bind e q _ (rw self mine) (Runs-bind e q _ (ssl_poll-Runs rest) (Runs-pure e q _ _))
  ssl_poll-Runs (polled_silence other out rest) =
      Runs-bind e q _
        (rw (other, out)
          (Runs-bind e q _ (Runs-pure e q (no_response hash) n)
            (rw (text_eq_refl (no_response hash)) (Runs-bind e q _ mine (Runs-pure e q gag n)))))
        (Runs-bind e q _ (ssl_poll-Runs rest) (Runs-pure e q _ _))
  ssl_poll-Runs (polled_hash {h} other is some_answer short rest) =
      let fits : leb hex_length (length h) ≡ false = ground arith in
      Runs-bind e q _
        (rw (other, is)
          (Runs-bind e q _ (Runs-pure e q _ n) (rw (some_answer, fits) (Runs-pure e q _ n))))
        (Runs-bind e q _ (ssl_poll-Runs rest) (Runs-pure e q _ _))

  fetch_back-done :
      (peers : List Bytes) (k left : ℕ) (chain : Bytes)
      → text_eq chain (no_response blockchain) ≡ false
      → Runs e q (fetch_back e o network peers k left chain) n chain n
  unfolding fetch_back
  fetch_back-done peers k zero chain some_chain = rw some_chain (Runs-pure e q chain n)
  fetch_back-done peers k (suc left) chain some_chain = rw some_chain (Runs-pure e q chain n)

  -- If the elected peer does not send its chain, and the last of at least two listed peers does,
  -- the chain of the last peer is taken, whatever hash it has told.
  pub copy_from-last :
      (peer second : Bytes) (rest hashes : List Bytes) (chain : Bytes)
      → Polled o network own 0 (peer ∷ second ∷ rest) hashes
      → called o network
          (length (peer ∷ second ∷ rest))
          (get_or (peer ∷ second ∷ rest) (elect hashes) [])
          blockchain_word
        ≡ returned (no_response blockchain)
      → called o network
          (length (peer ∷ second ∷ rest) + 1)
          (get_or (peer ∷ second ∷ rest) (length (second ∷ rest)) [])
          blockchain_word
        ≡ returned chain
      → text_eq chain (no_response blockchain) ≡ false
      → Runs e q
          (copy_from e o network (peer ∷ second ∷ rest))
          n
          tt
          (record n { files = stored actual_blockchain (c_str chain) n.files })
  unfolding copy_from fetch_back
  copy_from-last peer second rest hashes chain polled lost sent some_chain =
      Runs-bind e q _ (ssl_poll-Runs polled) (
        rw lost (
          Runs-bind e q _ (Runs-pure e q (no_response blockchain) n) (
            Runs-bind e q _
              (rw (text_eq_refl (no_response blockchain), sent)
                (Runs-bind e q _ (Runs-pure e q chain n) (
                  fetch_back-done (peer ∷ second ∷ rest) (length (peer ∷ second ∷ rest) + 1 + 1)
                    (length rest) chain some_chain)))
              (Runs-write e q (stored actual_blockchain (c_str chain)) n))))
