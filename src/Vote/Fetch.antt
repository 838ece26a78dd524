-- ===== src/Vote/Fetch.antt =====
-- The rounds of requests of `get_actual_blockchain_copy_i2pd` (bcm-linux-console/Cpp_part.cpp): for
-- the hashes of the peers, and for the chain of one of them.
use blockchain_crypto_messan.Common.{
  ℕ, zero, suc, ◌+◌, ◌≤◌, ◌<◌, ◌≡◌, ◌≢◌, sym, subst, true, false, List, [], ◌∷◌, arith, length, leb,
  text_eq, text_eq→eq, text_eq_refl, Bool-cases, inl, inr,
}
use blockchain_crypto_messan.Common.Int.{pos}
use blockchain_crypto_messan.Text.{Bytes}
use blockchain_crypto_messan.Text.Decimal.{to_string}
use blockchain_crypto_messan.Program.{returned}
use blockchain_crypto_messan.Sql.{BlockRow}
use blockchain_crypto_messan.Sql.Engine.{Engine, IsSqlite, Node, Runs, Runs-pure, Runs-bind}
use blockchain_crypto_messan.Chain.{get_hash_id_container}
use blockchain_crypto_messan.Chain.Links.{IsChain, last_hash}
use blockchain_crypto_messan.Chain.Import.{get_how_much_id-Runs, get_hash_id_container-Runs}
use blockchain_crypto_messan.Wire.{hash, blockchain, Call, no_response, get_hash_or_blockchain_i2pd}
use blockchain_crypto_messan.Wire.Client.{IsSilent, get_hash_or_blockchain_i2pd-silent}
use blockchain_crypto_messan.Vote.{
  Network, gag, hex_length, ended, own_hash, entry, ask_hash, poll, ask_blockchain, fetch_again,
  fetch, max_trying_times,
}

-- The hashes that a round of requests finds: at each place the node's own, one that the peer
-- answers, or `gag` where the peer does not answer.
pub data Heard (network : Network) (pd own : Bytes) : ℕ → List Bytes → List Bytes → Type 0 where
  heard_all : {j : ℕ} → Heard network pd own j [] []
  heard_self :
      {j : ℕ} {peer : Bytes} {peers hashes : List Bytes}
      → text_eq peer pd ≡ true
      → Heard network pd own (j + 1) peers hashes
      → Heard network pd own j (peer ∷ peers) (own ∷ hashes)
  heard_silence :
      {j : ℕ} {peer : Bytes} {peers hashes : List Bytes}
      → text_eq peer pd ≡ false
      → IsSilent (network j peer hash)
      → Heard network pd own (j + 1) peers hashes
      → Heard network pd own j (peer ∷ peers) (gag ∷ hashes)
  heard_hash :
      {j : ℕ} {peer h : Bytes} {peers hashes : List Bytes}
      → text_eq peer pd ≡ false
      → get_hash_or_blockchain_i2pd (hex_length + 1) hash (network j peer hash) ≡ returned h
      → text_eq h (no_response hash) ≡ false
      → length h < hex_length
      → Heard network pd own (j + 1) peers hashes
      → Heard network pd own j (peer ∷ peers) (h ∷ hashes)

-- The k-th request for the chain is answered by this text.
abbrev pub Answers : Network → Bytes → ℕ → Bytes → Type 0
Answers network peer k text =
    get_hash_or_blockchain_i2pd hex_length blockchain (network k peer blockchain) ≡ returned text

-- The requests from the k-th on, `i` of them, are not answered.
abbrev pub SilentFrom : Network → Bytes → ℕ → ℕ → Type 0
SilentFrom network peer k i = (j : ℕ) → j < i → IsSilent (network (k + j) peer blockchain)

module _ (e : Engine) (q : IsSqlite e) where
  pub own_hash-Runs :
      (md5 : Bytes → Bytes) (n : Node) (b : BlockRow) (bs : List BlockRow)
      → n.blockchain ≡ b ∷ bs
      → IsChain md5 (b ∷ bs)
      → Runs e q (own_hash e) n (last_hash b.transaction_hash bs) n
  unfolding own_hash
  own_hash-Runs md5 n b bs is h = Runs-bind e q _ (get_how_much_id-Runs e q n) (
      subst
        (λ r.
          Runs e q (get_hash_id_container e (to_string (pos (length r)))) n
            (last_hash b.transaction_hash bs) n)
        (sym is) (get_hash_id_container-Runs e q md5 n b bs is h))

  ended-Runs : {A : Type 0} (a : A) (n : Node) → Runs e q (ended e (returned a)) n a n
  ended-Runs a n = Runs-pure e q a n

  module _ (n : Node) (own : Bytes) (mine : Runs e q (own_hash e) n own n) where
    ask_hash-silent : (call : Call) → IsSilent call → Runs e q (ask_hash e call) n gag n
    unfolding ask_hash entry
    ask_hash-silent call out =
        rw (get_hash_or_blockchain_i2pd-silent (hex_length + 1) hash call out) (
          Runs-bind e q _ (ended-Runs (no_response hash) n)
            (rw (text_eq_refl (no_response hash)) (Runs-bind e q _ mine (Runs-pure e q gag n))))

    ask_hash-answered :
        (call : Call) (h : Bytes)
        → get_hash_or_blockchain_i2pd (hex_length + 1) hash call ≡ returned h
        → text_eq h (no_response hash) ≡ false
        → length h < hex_length
        → Runs e q (ask_hash e call) n h n
    unfolding ask_hash entry
    ask_hash-answered call h is some_answer short =
        let fits : leb hex_length (length h) ≡ false = ground arith in
        rw is (Runs-bind e q _ (ended-Runs h n) (rw (some_answer, fits) (Runs-pure e q h n)))

    pub poll-Runs :
        {network : Network} {pd : Bytes} {j : ℕ} {peers hashes : List Bytes}
        → Heard network pd own j peers hashes
        → Runs e q (poll e network pd j peers) n hashes n
    unfolding poll
    poll-Runs heard_all = Runs-pure e q _ _
    poll-Runs (heard_self self rest) =
        Runs-bind e q _ (rw self mine) (Runs-bind e q _ (poll-Runs rest) (Runs-pure e q _ _))
    poll-Runs (heard_silence other out rest) =
        Runs-bind e q _ (rw other (ask_hash-silent _ out))
          (Runs-bind e q _ (poll-Runs rest) (Runs-pure e q _ _))
    poll-Runs (heard_hash other is some_answer short rest) =
        Runs-bind e q _ (rw other (ask_hash-answered _ _ is some_answer short))
          (Runs-bind e q _ (poll-Runs rest) (Runs-pure e q _ _))

  ask_blockchain-answered :
      (network : Network) (peer text : Bytes) (k : ℕ) (n : Node)
      → Answers network peer k text
      → Runs e q (ask_blockchain e (network k peer blockchain)) n text n
  unfolding ask_blockchain
  ask_blockchain-answered network peer text k n is = rw is (ended-Runs text n)

  ask_blockchain-silent :
      (network : Network) (peer : Bytes) (i k : ℕ) (n : Node)
      → SilentFrom network peer k (suc i)
      → Runs e q (ask_blockchain e (network k peer blockchain)) n (no_response blockchain) n
  ask_blockchain-silent network peer i k n out = ask_blockchain-answered network peer _ k n (
      get_hash_or_blockchain_i2pd-silent hex_length blockchain (network k peer blockchain) (
        subst (λ j. IsSilent (network j peer blockchain)) {x = k + 0} {y = k} (omega arith)
          (out 0 (omega arith))))

  later_silent :
      (network : Network) (peer : Bytes) (i k : ℕ)
      → SilentFrom network peer k (suc i)
      → SilentFrom network peer (k + 1) i
  later_silent network peer i k out j lt =
      subst (λ m. IsSilent (network m peer blockchain)) {x = k + suc j} {y = k + 1 + j}
        (omega arith) (out (suc j) (omega arith))

  fetch_again-answered :
      (rounds k : ℕ) (network : Network) (peer text : Bytes) (n : Node)
      → text ≢ no_response blockchain
      → Runs e q (fetch_again e rounds network k peer text) n text n
  unfolding fetch_again
  fetch_again-answered zero k network peer text n ne = Runs-pure e q _ _
  fetch_again-answered (suc rounds) k network peer text n ne =
      elim (Bool-cases (text_eq text (no_response blockchain))) [
        | inl same ↦ absurd (ne (text_eq→eq _ _ same))
        | inr other ↦ rw other (Runs-pure e q _ _)
      ]

  -- `i` requests are not answered, and the next one is.
  fetch_again-Runs :
      (i rounds k : ℕ) (network : Network) (peer text : Bytes) (n : Node)
      → i < rounds
      → SilentFrom network peer k i
      → Answers network peer (k + i) text
      → text ≢ no_response blockchain
      → Runs e q (fetch_again e rounds network k peer (no_response blockchain)) n text n
  unfolding fetch_again
  fetch_again-Runs i zero k network peer text n lt out is ne = absurd (omega arith)
  fetch_again-Runs zero (suc rounds) k network peer text n lt out is ne =
      rw (text_eq_refl (no_response blockchain)) (
        Runs-bind e q _
          (ask_blockchain-answered network peer text k n
            (subst (λ j. Answers network peer j text) (omega arith) is))
          (fetch_again-answered rounds (k + 1) network peer text n ne))
  fetch_again-Runs (suc i) (suc rounds) k network peer text n lt out is ne =
      rw (text_eq_refl (no_response blockchain)) (
        Runs-bind e q _ (ask_blockchain-silent network peer i k n out) (
          fetch_again-Runs i rounds (k + 1) network peer text n (omega arith)
            (later_silent network peer i k out)
            (subst (λ m. Answers network peer m text) {x = k + suc i} {y = k + 1 + i} (omega arith)
              is)
            ne))

  -- If at most three requests for the chain get no answer, and the next one is answered by a text
  -- other than the one for a missing answer, that text is fetched and the node is as it was.
  pub fetch-Runs :
      (i k : ℕ) (network : Network) (peer text : Bytes) (n : Node)
      → i ≤ max_trying_times
      → SilentFrom network peer k i
      → Answers network peer (k + i) text
      → text ≢ no_response blockchain
      → Runs e q (fetch e network k peer) n text n
  unfolding fetch
  fetch-Runs zero k network peer text n le out is ne =
      Runs-bind e q _
        (ask_blockchain-answered network peer text k n
          (subst (λ j. Answers network peer j text) (omega arith) is))
        (fetch_again-answered max_trying_times (k + 1) network peer text n ne)
  fetch-Runs (suc i) k network peer text n le out is ne =
      Runs-bind e q _ (ask_blockchain-silent network peer i k n out) (
        fetch_again-Runs i max_trying_times (k + 1) network peer text n (omega arith)
          (later_silent network peer i k out)
          (subst (λ m. Answers network peer m text) {x = k + suc i} {y = k + 1 + i} (omega arith)
            is)
          ne)
