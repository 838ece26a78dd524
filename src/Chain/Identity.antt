-- ===== src/Chain/Identity.antt =====
-- What the last hash says of a chain (bcm-linux-console/Cpp_part.cpp), which the nodes compare in
-- place of their chains.
use blockchain_crypto_messan.Common.{
  ℕ, ◌+◌, ◌≡◌, refl, sym, ap, ap₂, ◌∙◌, List, [], ◌∷◌, ◌++◌, length, arith, length-append, All,
}
use blockchain_crypto_messan.Text.{Bytes, c_str}
use blockchain_crypto_messan.Hash.{get_hash_from_string, length-hex}
use blockchain_crypto_messan.Sql.{BlockRow}
use blockchain_crypto_messan.Chain.Links.{Linked, IsChain, last_hash, block_after}

-- Texts of equal length are joined to equal texts only if both parts are equal.
append_cancel : (a b p q : Bytes) → length p ≡ length q → a ++ p ≡ b ++ q → (a ≡ b) × (p ≡ q)
append_cancel [] [] p q size same = (refl, same)
append_cancel [] (y ∷ b) p q size same = absurd (omega (arith, ap length same, length-append b q))
append_cancel (x ∷ a) [] p q size same = absurd (omega (arith, ap length same, length-append a p))
append_cancel (x ∷ a) (y ∷ b) p q size same =
    let head : x ≡ y = ground arith in
    let tail : a ++ p ≡ b ++ q = ground arith in
    let rest : (a ≡ b) × (p ≡ q) = append_cancel a b p q size tail in (ap₂ ◌∷◌ head rest.0, rest.1)

module _ (md5 : Bytes → Bytes) where
  -- The texts that the hashes of these blocks are taken of.
  abbrev pub hashed : Bytes → List BlockRow → List Bytes
  hashed prev [] = []
  hashed prev (b ∷ bs) = (b.transaction_body ++ prev) ∷ hashed b.transaction_hash bs

  -- No text of the one list has the hash of another text of the other.
  abbrev pub NoCollision : List Bytes → List Bytes → Type 0
  NoCollision xs ys =
      All (λ x. All (λ y. get_hash_from_string md5 x ≡ get_hash_from_string md5 y → x ≡ y) ys) xs

  NoCollision-tail : (y : Bytes) (xs ys : List Bytes) → NoCollision xs (y ∷ ys) → NoCollision xs ys
  NoCollision-tail y [] ys h = tt
  NoCollision-tail y (x ∷ xs) ys h = (h.0.1, NoCollision-tail y xs ys h.1)

  same_blocks :
      (id : ℕ) (prev prev' : Bytes) (bs cs : List BlockRow)
      → ((x y : Bytes) → length (get_hash_from_string md5 x) ≡ length (get_hash_from_string md5 y))
      → length prev ≡ length prev'
      → Linked md5 id prev bs
      → Linked md5 id prev' cs
      → NoCollision (hashed prev bs) (hashed prev' cs)
      → length bs ≡ length cs
      → last_hash prev bs ≡ last_hash prev' cs
      → (bs ≡ cs) × (prev ≡ prev')
  same_blocks id prev prev' [] [] even size h k free count same = (refl, same)
  same_blocks id prev prev' [] (c ∷ cs) even size h k free count same = absurd (omega arith)
  same_blocks id prev prev' (b ∷ bs) [] even size h k free count same = absurd (omega arith)
  same_blocks id prev prev' (b ∷ bs) (c ∷ cs) even size h k free count same =
      let rest : (bs ≡ cs) × (b.transaction_hash ≡ c.transaction_hash) =
        same_blocks (id + 1) b.transaction_hash c.transaction_hash bs cs even
          (ap length (ap (λ (r : BlockRow). r.transaction_hash) h.1)
            ∙ even _ _
            ∙ sym (ap length (ap (λ (r : BlockRow). r.transaction_hash) k.1)))
          h.2 k.2 (NoCollision-tail _ _ _ free.1) (omega arith) same in
      let texts : b.transaction_body ++ prev ≡ c.transaction_body ++ prev' = free.0.0 (
        sym (ap (λ (r : BlockRow). r.transaction_hash) h.1)
        ∙ rest.1
        ∙ ap (λ (r : BlockRow). r.transaction_hash) k.1) in
      let parts : (b.transaction_body ≡ c.transaction_body) × (prev ≡ prev') =
        append_cancel _ _ prev prev' size texts in
      (ap₂ ◌∷◌ (h.1 ∙ ap₂ (block_after md5 id) parts.1 parts.0 ∙ sym k.1) rest.0, parts.1)

  hash_sizes :
      (size : ℕ)
      → ((s : Bytes) → length (md5 s) ≡ size)
      → (x y : Bytes) → length (get_hash_from_string md5 x) ≡ length (get_hash_from_string md5 y)
  unfolding get_hash_from_string
  hash_sizes size digest x y = omega (
    arith,
    length-hex (md5 (c_str x)),
    length-hex (md5 (c_str y)),
    digest (c_str x),
    digest (c_str y),
  )

  -- Two linked chains with the same number of blocks and the same last hash have the same blocks
  -- behind the first, if all digests have one length and no text of the one chain has the hash of
  -- another text of the other. The first block's body is in no hash.
  pub last_hash-blocks :
      (size : ℕ) (b c : BlockRow) (bs cs : List BlockRow)
      → ((s : Bytes) → length (md5 s) ≡ size)
      → IsChain md5 (b ∷ bs)
      → IsChain md5 (c ∷ cs)
      → NoCollision (hashed b.transaction_hash bs) (hashed c.transaction_hash cs)
      → length bs ≡ length cs
      → last_hash b.transaction_hash bs ≡ last_hash c.transaction_hash cs
      → bs ≡ cs
  last_hash-blocks size b c bs cs digest h k free count same =
      let first : b.transaction_hash ≡ c.transaction_hash =
        ap (λ (r : BlockRow). r.transaction_hash) h.1
        ∙ sym (ap (λ (r : BlockRow). r.transaction_hash) k.1) in
      (same_blocks 2 b.transaction_hash c.transaction_hash bs cs (hash_sizes size digest)
        (ap length first) h.2 k.2 free count same).0
