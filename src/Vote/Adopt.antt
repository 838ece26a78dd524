-- ===== src/Vote/Adopt.antt =====
-- A node that brings its chain up to date (`get_actual_blockchain_copy_i2pd` of
-- bcm-linux-console/Cpp_part.cpp, and the import behind it in bcm-linux-console/Messenger.cpp).
use blockchain_crypto_messan.Common.{
  ℕ, ◌+◌, ◌-◌, ◌≤◌, ◌<◌, ◌≡◌, ◌≢◌, refl, true, false, some, List, [], ◌∷◌, ◌++◌, map, arith, length,
  take, get_or, ltb, leb, text_eq_refl, All,
}
use blockchain_crypto_messan.Common.Int.{pos}
use blockchain_crypto_messan.Text.{Bytes, c_str}
use blockchain_crypto_messan.Sql.{BlockRow, apply, delete_blockchain}
use blockchain_crypto_messan.Sql.Engine.{
  Engine, IsSqlite, Node, Runs, Runs-pure, Runs-bind, Runs-file, Runs-write, run_sql-Runs,
}
use blockchain_crypto_messan.Chain.{removed, clear_blockchain_table}
use blockchain_crypto_messan.Chain.Links.{IsChain}
use blockchain_crypto_messan.Chain.Import.{with_blocks}
use blockchain_crypto_messan.Chain.File.{IsEntry, file_of, replica}
use blockchain_crypto_messan.Wire.{blockchain, no_response}
use blockchain_crypto_messan.Vote.{
  Network, gag, count, elect, destinations, max_peers, max_trying_times, hex_length,
  user_list_client_i2pd, keys_folder, public_hash_and_blockchain, actual_blockchain, stored,
  max_destination_length, own_destination, own_hash, keep_chain, with_peers,
  get_actual_blockchain_copy_i2pd, update_blockchain,
}
use blockchain_crypto_messan.Vote.Fetch.{Heard, poll-Runs, fetch-Runs, Answers, SilentFrom}
use blockchain_crypto_messan.Vote.Election.{hash_at, elect-majority}

-- What the file with the node's own destination holds.
abbrev pub own_of : Bytes → Bytes
own_of content =
    let read = take max_destination_length content in c_str (take (length read - 1) read)

-- `text` comes from the peer at the place `i`, after `lost` requests.
pub record Sends (network : Network) (peers : List Bytes) (i : ℕ) (text : Bytes) : Type 0 where
  pub lost : ℕ
  pub few_lost : lost ≤ max_trying_times
  pub silent : SilentFrom network (get_or peers i []) (length peers) lost
  pub answers : Answers network (get_or peers i []) (length peers + lost) text

abbrev pub with_file : Node → Bytes → Bytes → Node
with_file n name content = record n { files = stored name content n.files }

abbrev pub bodies : List BlockRow → List Bytes
bodies bs = map (λ b. b.transaction_body) bs

module _ (e : Engine) (q : IsSqlite e) where
  -- A node with a list of peers, and the hashes that it hears.
  pub record Neighbours (n : Node) (network : Network) (name : Bytes) : Type 0 where
    pub list : Bytes
    pub peer : Bytes
    pub peers : List Bytes
    pub c : ℕ
    pub content : Bytes
    pub own : Bytes
    pub hashes : List Bytes
    pub list_file : n.files user_list_client_i2pd ≡ some list
    pub list_read : destinations (length list) list ≡ some (peer ∷ peers)
    pub few : length (peer ∷ peers) ≤ max_peers
    pub own_file : n.files (keys_folder ++ name ++ public_hash_and_blockchain) ≡ some (c ∷ content)
    pub mine : Runs e q (own_hash e) n own n
    pub heard : Heard network (own_of (c ∷ content)) own 0 (peer ∷ peers) hashes

  keep_chain-Runs :
      (text : Bytes) (n : Node)
      → length text < hex_length
      → Runs e q (keep_chain e text) n tt (with_file n actual_blockchain text)
  unfolding keep_chain
  keep_chain-Runs text n short =
      let fits : leb hex_length (length text) ≡ false = ground arith in
      record { at = λ w v. rw fits ((Runs-write e q (stored actual_blockchain text) n).at w v) }

  with_peers-Runs :
      (network : Network) (text pd own peer : Bytes) (peers hashes : List Bytes) (n : Node)
      → Runs e q (own_hash e) n own n
      → Heard network pd own 0 (peer ∷ peers) hashes
      → Sends network (peer ∷ peers) (elect hashes) text
      → text ≢ no_response blockchain
      → length text < hex_length
      → Runs e q (with_peers e network pd (peer ∷ peers)) n tt (with_file n actual_blockchain text)
  unfolding with_peers
  with_peers-Runs network text pd own peer peers hashes n mine heard s ne short =
      Runs-bind e q _ (poll-Runs e q n own mine heard) (
        Runs-bind e q _
          (fetch-Runs e q s.lost (length (peer ∷ peers)) network _ text n s.few_lost s.silent
            s.answers ne)
          (keep_chain-Runs text n short))

  pub get_actual_blockchain_copy_i2pd-Runs :
      (network : Network) (name text : Bytes) (n : Node) (k : Neighbours n network name)
      → Sends network (k.peer ∷ k.peers) (elect k.hashes) text
      → text ≢ no_response blockchain
      → length text < hex_length
      → Runs e q
          (get_actual_blockchain_copy_i2pd e network name)
          n
          true
          (with_file n actual_blockchain text)
  unfolding get_actual_blockchain_copy_i2pd own_destination
  get_actual_blockchain_copy_i2pd-Runs network name text n k s ne short =
      let few : ltb max_peers (length (k.peer ∷ k.peers)) ≡ false = ground (arith, k.few) in
      Runs-bind e q _ (Runs-file e q user_list_client_i2pd n) (
        rw (k.list_file, k.list_read, few)
          (Runs-bind e q _ (Runs-pure e q (k.peer ∷ k.peers) n) (
            Runs-bind e q _ (Runs-file e q (keys_folder ++ name ++ public_hash_and_blockchain) n) (
              rw k.own_file (
                Runs-bind e q _ (Runs-pure e q (own_of (k.c ∷ k.content)) n) (
                  Runs-bind e q _
                    (with_peers-Runs network text _ k.own k.peer k.peers k.hashes n k.mine k.heard s
                      ne short)
                    (Runs-pure e q true _)))))))

  pub clear_blockchain_table-Runs :
      (n : Node) → Runs e q (clear_blockchain_table e) n true (with_blocks n [])
  unfolding clear_blockchain_table apply
  clear_blockchain_table-Runs n =
      Runs-bind e q _ (run_sql-Runs e q delete_blockchain n tt) (Runs-pure e q _ _)

  -- The node's own chain, whatever it was, gives way to the chain of the elected peer.
  pub update_blockchain-Runs :
      (md5 : Bytes → Bytes) (limit : ℕ) (network : Network) (name : Bytes) (n : Node)
      (k : Neighbours n network name) (bs : List BlockRow)
      → Sends network (k.peer ∷ k.peers) (elect k.hashes) (file_of (bodies bs))
      → file_of (bodies bs) ≢ no_response blockchain
      → length (file_of (bodies bs)) < hex_length
      → IsChain md5 bs
      → All IsEntry (bodies bs)
      → length bs < limit
      → Runs e q
          (update_blockchain e md5 (pos limit) network name)
          n
          tt
          (record (with_blocks n bs) {
            files =
                removed actual_blockchain (stored actual_blockchain (file_of (bodies bs)) n.files);
          })
  unfolding update_blockchain
  update_blockchain-Runs md5 limit network name n k bs s ne short chain clean room =
      Runs-bind e q _
        (get_actual_blockchain_copy_i2pd-Runs network name (file_of (bodies bs)) n k s ne short)
        (Runs-bind e q _
          (clear_blockchain_table-Runs (with_file n actual_blockchain (file_of (bodies bs))))
          (replica e q md5 limit actual_blockchain
            (with_blocks (with_file n actual_blockchain (file_of (bodies bs))) []) bs
            (rw (text_eq_refl actual_blockchain) refl) refl chain clean room))

  -- If more than half of the listed peers that answer have the same last hash, and each peer with
  -- that hash sends, within four requests, the same linked chain, below the limit and without `~`
  -- and NUL in a body, whose file fits the buffer and is not the text for a missing answer, then
  -- the node has that chain after the update, whatever its own chain was.
  pub update_blockchain-majority :
      (md5 : Bytes → Bytes) (limit : ℕ) (network : Network) (name : Bytes) (n : Node)
      (k : Neighbours n network name) (bs : List BlockRow) (h : Bytes) (i : ℕ)
      → i < length k.hashes
      → hash_at k.hashes i ≡ h
      → h ≢ gag
      → length k.hashes < count h k.hashes + count h k.hashes + count gag k.hashes
      → ((w : ℕ)
          → hash_at k.hashes w ≡ h
          → Sends network (k.peer ∷ k.peers) w (file_of (bodies bs)))
      → file_of (bodies bs) ≢ no_response blockchain
      → length (file_of (bodies bs)) < hex_length
      → IsChain md5 bs
      → All IsEntry (bodies bs)
      → length bs < limit
      → Runs e q
          (update_blockchain e md5 (pos limit) network name)
          n
          tt
          (record (with_blocks n bs) {
            files =
                removed actual_blockchain (stored actual_blockchain (file_of (bodies bs)) n.files);
          })
  update_blockchain-majority md5 limit network name n k bs h i lt is ne more sends =
      update_blockchain-Runs md5 limit network name n k bs
        (sends (elect k.hashes) (elect-majority k.hashes h i lt is ne more))
