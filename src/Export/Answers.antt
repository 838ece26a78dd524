-- ===== src/Export/Answers.antt =====
-- What `hash_and_blockchain_server_part_function_i2pd` (bcm-linux-console/Cpp_part.cpp) answers.
use blockchain_crypto_messan.Common.{
  ℕ, ◌≡◌, refl, sym, ap, subst, ◌∙◌, none, some, List, [], ◌∷◌, map, arith, length, take, text_eq,
  All,
}
use blockchain_crypto_messan.Common.Int.{pos, ◌+ℤ◌, ◌-ℤ◌, pos_part}
use blockchain_crypto_messan.Text.{Bytes, c_str, c_str-eq}
use blockchain_crypto_messan.Text.Decimal.{to_string, atoi-to_string}
use blockchain_crypto_messan.Program.{blocked, ◌>>=◌, >>=-blocked}
use blockchain_crypto_messan.Transaction.{max_transaction_length}
use blockchain_crypto_messan.Sql.{BlockRow}
use blockchain_crypto_messan.Sql.Engine.{
  Engine, IsSqlite, World, Node, Runs, Runs-pure, Runs-bind, Runs-file, Runs-write, view,
}
use blockchain_crypto_messan.Chain.{removed, get_hash_id_container}
use blockchain_crypto_messan.Chain.Links.{IsChain, IsChain-Ids, last_hash, last_hash-NoNul}
use blockchain_crypto_messan.Chain.Import.{get_how_much_id-Runs, get_hash_id_container-Runs}
use blockchain_crypto_messan.Chain.File.{file_of}
use blockchain_crypto_messan.Wire.{get_last_id_hesh, get_actual_blockchain}
use blockchain_crypto_messan.Export.{
  blockchain_txt, bodies_to_file, blockchain_from_db_to_file_c, send_chain, send_hash,
  answer_request,
}
use blockchain_crypto_messan.Export.Bodies.{
  Fits, grown, grown-new, removed-grown, bodies_to_file-Runs,
}

abbrev pub exported : List BlockRow → Bytes
exported bs = file_of (map (λ r. r.transaction_body) bs)

rounds_of : (k : ℕ) → pos_part (pos k +ℤ pos 1 -ℤ pos 1) ≡ k
unfolding ◌-ℤ◌ ◌+ℤ◌
rounds_of k = ground arith

module _ (e : Engine) (q : IsSqlite e) where
  blockchain_from_db_to_file_c-Runs :
      (md5 : Bytes → Bytes) (n : Node) (b : BlockRow) (bs : List BlockRow)
      → n.blockchain ≡ b ∷ bs
      → IsChain md5 (b ∷ bs)
      → All Fits (b ∷ bs)
      → n.files blockchain_txt ≡ none
      → Runs e q
          (blockchain_from_db_to_file_c e (pos 1) blockchain_txt)
          n
          (take max_transaction_length (exported (b ∷ bs)))
          (record n { files = grown blockchain_txt (b ∷ bs) n.files })
  unfolding blockchain_from_db_to_file_c
  blockchain_from_db_to_file_c-Runs md5 n b bs is chain fits out =
      Runs-bind e q _ (get_how_much_id-Runs e q n) (
        rw (atoi-to_string (length n.blockchain), rounds_of (length n.blockchain))
          (Runs-bind e q _
            (subst
              (λ k.
                Runs e q (bodies_to_file e k (pos 1) blockchain_txt) n tt
                  (record n { files = grown blockchain_txt (b ∷ bs) n.files }))
              (sym (ap length is))
              (bodies_to_file-Runs e q blockchain_txt [] (b ∷ bs) 1 n is
                (IsChain-Ids md5 (b ∷ bs) chain) refl fits))
            (Runs-bind e q _ (Runs-file e q blockchain_txt _)
              (rw (grown-new blockchain_txt b bs n.files out) (Runs-pure e q _ _)))))

  send_chain-Runs :
      (md5 : Bytes → Bytes) (n : Node) (b : BlockRow) (bs : List BlockRow)
      → n.blockchain ≡ b ∷ bs
      → IsChain md5 (b ∷ bs)
      → All Fits (b ∷ bs)
      → n.files blockchain_txt ≡ none
      → Runs e q (send_chain e) n (some (exported (b ∷ bs))) n
  unfolding send_chain
  send_chain-Runs md5 n b bs is chain fits out =
      Runs-bind e q _ (blockchain_from_db_to_file_c-Runs md5 n b bs is chain fits out) (
        Runs-bind e q _ (Runs-file e q blockchain_txt _) (
          rw (grown-new blockchain_txt b bs n.files out) (
            Runs-bind e q _
              (Runs-write e q (removed blockchain_txt)
                (record n { files = grown blockchain_txt (b ∷ bs) n.files }))
              (rw (removed-grown blockchain_txt (b ∷ bs) n.files out) (Runs-pure e q _ _)))))

  -- A node with a linked chain of at least one block, without a file blockchain.txt, whose bodies
  -- fit the buffer, answers the request for its chain by all bodies in their order, each followed
  -- by `~`, and is as it was afterwards.
  pub answer_request-chain :
      (md5 : Bytes → Bytes) (n : Node) (b : BlockRow) (bs : List BlockRow)
      → n.blockchain ≡ b ∷ bs
      → IsChain md5 (b ∷ bs)
      → All Fits (b ∷ bs)
      → n.files blockchain_txt ≡ none
      → Runs e q (answer_request e get_actual_blockchain) n (some (exported (b ∷ bs))) n
  unfolding answer_request text_eq c_str
  answer_request-chain md5 n b bs is chain fits out = send_chain-Runs md5 n b bs is chain fits out

  -- And the request for its last hash by the hash of its last block.
  pub answer_request-hash :
      (md5 : Bytes → Bytes) (n : Node) (b : BlockRow) (bs : List BlockRow)
      → n.blockchain ≡ b ∷ bs
      → IsChain md5 (b ∷ bs)
      → Runs e q (answer_request e get_last_id_hesh) n (some (last_hash b.transaction_hash bs)) n
  unfolding answer_request text_eq c_str send_hash
  answer_request-hash md5 n b bs is chain = Runs-bind e q _ (get_how_much_id-Runs e q n) (
      Runs-bind e q _
        (subst
          (λ r.
            Runs e q (get_hash_id_container e (to_string (pos (length r)))) n
              (last_hash b.transaction_hash bs) n)
          (sym is) (get_hash_id_container-Runs e q md5 n b bs is chain))
        (rw (c_str-eq _ (last_hash-NoNul md5 b bs chain)) (Runs-pure e q _ _)))

  blocked_export :
      (w : World e) (n : Node)
      → view e q w ≡ n
      → n.blockchain ≡ []
      → n.files blockchain_txt ≡ none
      → (w' : World e) × (blockchain_from_db_to_file_c e (pos 1) blockchain_txt w ≡ (blocked, w'))
        × (view e q w' ≡ n)
  unfolding blockchain_from_db_to_file_c bodies_to_file ◌>>=◌
  blocked_export w n v is out =
      let (w₁, e₁, v₁) = (get_how_much_id-Runs e q n).at w v in
      let nothing : w₁.files blockchain_txt ≡ none =
        ap (λ (k : Node). k.files blockchain_txt) v₁ ∙ out in
      (w₁, rw (e₁, ap length is, atoi-to_string 0, rounds_of 0, nothing) refl, v₁)

  -- A node with an empty chain and no file blockchain.txt never answers the request for its chain,
  -- and its tables and files stay as they were.
  pub answer_request-empty :
      (w : World e) (n : Node)
      → view e q w ≡ n
      → n.blockchain ≡ []
      → n.files blockchain_txt ≡ none
      → (w' : World e) × (answer_request e get_actual_blockchain w ≡ (blocked, w'))
        × (view e q w' ≡ n)
  unfolding answer_request text_eq c_str send_chain
  answer_request-empty w n v is out =
      let (w₁, e₁, v₁) = blocked_export w n v is out in (w₁, >>=-blocked _ _ w e₁, v₁)
