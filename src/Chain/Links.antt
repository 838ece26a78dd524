-- ===== src/Chain/Links.antt =====
-- What a chain is, apart from the database: the blocks are numbered from 1, the first has the
-- agreed hashes, and each later one names the hash of the block before it and has the hash of its
-- own body followed by that.
use blockchain_crypto_messan.Common.{
  ℕ, ◌+◌, ◌≡◌, refl, sym, ap, subst, subst₂, ◌∙◌, true, false, All, List, [], ◌∷◌, ◌++◌, map,
  length, arith, append-nil, append_assoc, length-append,
}
use blockchain_crypto_messan.Common.Int.{pos}
use blockchain_crypto_messan.Text.{Bytes, NoNul, c_str}
use blockchain_crypto_messan.Hash.{get_hash_from_string, hex-NoNul, hex-IsField}
use blockchain_crypto_messan.Transaction.RoundTrip.{IsField}
use blockchain_crypto_messan.Sql.{BlockRow, numbered, same_int}
use blockchain_crypto_messan.Chain.{default_hesh_before, default_this_hash}

abbrev pub last_hash : Bytes → List BlockRow → Bytes
last_hash prev [] = prev
last_hash prev (b ∷ bs) = last_hash b.transaction_hash bs

-- Numbered from `id` on.
abbrev pub Ids : ℕ → List BlockRow → Type 0
Ids id [] = Unit
Ids id (b ∷ bs) = (b.transaction_id ≡ pos id) × Ids (id + 1) bs

module _ (md5 : Bytes → Bytes) where
  abbrev pub first_block : Bytes → BlockRow
  first_block body = record {
    transaction_id = pos 1;
    transaction_body = body;
    transaction_size = pos (length body);
    before_transaction_hash = default_hesh_before;
    transaction_hash = default_this_hash;
  }

  abbrev pub block_after : ℕ → Bytes → Bytes → BlockRow
  block_after id prev body = record {
    transaction_id = pos id;
    transaction_body = body;
    transaction_size = pos (length body);
    before_transaction_hash = prev;
    transaction_hash = get_hash_from_string md5 (body ++ prev);
  }

  -- The blocks numbered from `id` on, behind a block with the hash `prev`.
  abbrev pub Linked : ℕ → Bytes → List BlockRow → Type 0
  Linked id prev [] = Unit
  Linked id prev (b ∷ bs) =
      NoNul b.transaction_body
      × (b ≡ block_after id prev b.transaction_body)
      × Linked (id + 1) b.transaction_hash bs

  abbrev pub IsChain : List BlockRow → Type 0
  IsChain [] = Unit
  IsChain (b ∷ bs) =
      NoNul b.transaction_body
      × (b ≡ first_block b.transaction_body)
      × Linked 2 b.transaction_hash bs

  -- The block that a transaction becomes.
  abbrev pub next_block : List BlockRow → Bytes → BlockRow
  next_block [] body = first_block body
  next_block (b ∷ bs) body =
      block_after (length (b ∷ bs) + 1) (last_hash b.transaction_hash bs) body

  abbrev pub extend : List BlockRow → List Bytes → List BlockRow
  extend bs [] = bs
  extend bs (body ∷ bodies) = extend (bs ++ next_block bs body ∷ []) bodies

  Linked-append :
      (id : ℕ) (prev body : Bytes) (bs : List BlockRow)
      → Linked id prev bs
      → NoNul body
      → Linked id prev (bs ++ block_after (id + length bs) (last_hash prev bs) body ∷ [])
  Linked-append id prev body [] h clean =
      (clean, ap (λ k. block_after k prev body) (omega arith), tt)
  Linked-append id prev body (b ∷ bs) h clean = (
    h.0,
    h.1,
    subst
        (λ k.
          Linked (id + 1) b.transaction_hash
            (bs ++ block_after k (last_hash b.transaction_hash bs) body ∷ []))
        (omega arith) (Linked-append (id + 1) b.transaction_hash body bs h.2 clean),
  )

  -- A transaction appended as the next block keeps the chain.
  pub next_block-IsChain :
      (bs : List BlockRow) (body : Bytes)
      → IsChain bs
      → NoNul body
      → IsChain (bs ++ next_block bs body ∷ [])
  next_block-IsChain [] body h clean = (clean, refl, tt)
  next_block-IsChain (b ∷ bs) body h clean = (
    h.0,
    h.1,
    subst
        (λ k.
          Linked 2 b.transaction_hash
            (bs ++ block_after k (last_hash b.transaction_hash bs) body ∷ []))
        (omega arith) (Linked-append 2 b.transaction_hash body bs h.2 clean),
  )

  pub get_hash_from_string-NoNul : (s : Bytes) → NoNul (get_hash_from_string md5 s)
  unfolding get_hash_from_string
  get_hash_from_string-NoNul s = hex-NoNul (md5 (c_str s))

  -- What holds of the first hash and of every printed hash holds of the last one.
  Linked-last_hash :
      (P : Bytes → Type 0) (id : ℕ) (prev : Bytes) (bs : List BlockRow)
      → ((s : Bytes) → P (get_hash_from_string md5 s))
      → P prev
      → Linked id prev bs
      → P (last_hash prev bs)
  Linked-last_hash P id prev [] printed first h = first
  Linked-last_hash P id prev (b ∷ bs) printed first h =
      Linked-last_hash P (id + 1) b.transaction_hash bs printed
        (subst P (sym (ap (λ r. r.transaction_hash) h.1)) (printed _)) h.2

  -- The hashes of a chain are C strings.
  pub last_hash-NoNul :
      (b : BlockRow) (bs : List BlockRow)
      → IsChain (b ∷ bs)
      → NoNul (last_hash b.transaction_hash bs)
  last_hash-NoNul b bs h =
      Linked-last_hash NoNul 2 b.transaction_hash bs get_hash_from_string-NoNul
        (subst NoNul (sym (ap (λ r. r.transaction_hash) h.1)) (omega arith)) h.2

  pub last_hash-IsField :
      (b : BlockRow) (bs : List BlockRow)
      → IsChain (b ∷ bs)
      → IsField (last_hash b.transaction_hash bs)
  unfolding get_hash_from_string
  last_hash-IsField b bs h =
      Linked-last_hash IsField 2 b.transaction_hash bs (λ s. hex-IsField (md5 (c_str s)))
        (subst IsField (sym (ap (λ r. r.transaction_hash) h.1)) (omega arith)) h.2

  Linked-Ids : (id : ℕ) (prev : Bytes) (bs : List BlockRow) → Linked id prev bs → Ids id bs
  Linked-Ids id prev [] h = tt
  Linked-Ids id prev (b ∷ bs) h = (ap (λ r. r.transaction_id) h.1, Linked-Ids (id + 1) _ bs h.2)

  pub IsChain-Ids : (bs : List BlockRow) → IsChain bs → Ids 1 bs
  IsChain-Ids [] h = tt
  IsChain-Ids (b ∷ bs) h = (ap (λ r. r.transaction_id) h.1, Linked-Ids 2 b.transaction_hash bs h.2)

  -- The statement that asks for the hash of the last number finds it.
  numbered_last :
      (id k : ℕ) (b : BlockRow) (bs : List BlockRow)
      → Ids id (b ∷ bs)
      → k ≡ id + length bs
      → map (λ r. r.transaction_hash ∷ []) (numbered (pos k) (b ∷ bs))
        ≡ (last_hash b.transaction_hash bs ∷ []) ∷ []
  unfolding numbered
  numbered_last id k b [] h e =
      let same : same_int (pos id) (pos k) ≡ true = ground arith in rw (h.0, same)
  numbered_last id k b (c ∷ bs) h e =
      let other : same_int (pos id) (pos k) ≡ false = ground arith in
      rw (h.0, other) (numbered_last (id + 1) k c bs h.1 (omega arith))

  pub numbered-IsChain :
      (b : BlockRow) (bs : List BlockRow)
      → IsChain (b ∷ bs)
      → map (λ r. r.transaction_hash ∷ []) (numbered (pos (length (b ∷ bs))) (b ∷ bs))
        ≡ (last_hash b.transaction_hash bs ∷ []) ∷ []
  numbered-IsChain b bs h =
      numbered_last 1 _ b bs
        (ap (λ r. r.transaction_id) h.1, Linked-Ids 2 b.transaction_hash bs h.2) (omega arith)

  last_hash-append :
      (prev : Bytes) (bs : List BlockRow) (c : BlockRow)
      → last_hash prev (bs ++ c ∷ []) ≡ c.transaction_hash
  last_hash-append prev [] c = refl
  last_hash-append prev (b ∷ bs) c = last_hash-append b.transaction_hash bs c

  extend-Linked :
      (a : BlockRow) (before bs : List BlockRow)
      → Linked (length (a ∷ before) + 1) (last_hash a.transaction_hash before) bs
      → extend (a ∷ before) (map (λ b. b.transaction_body) bs) ≡ (a ∷ before) ++ bs
  extend-Linked a before [] h = sym (append-nil (a ∷ before))
  extend-Linked a before (b ∷ bs) h =
      ap (λ c. extend (a ∷ (before ++ c ∷ [])) (map (λ r. r.transaction_body) bs)) (sym h.1)
      ∙ extend-Linked a (before ++ b ∷ []) bs (
          subst₂ (λ k p. Linked k p bs) (omega (arith, length-append before (b ∷ [])))
            (sym (last_hash-append a.transaction_hash before b)) h.2)
      ∙ append_assoc (a ∷ before) (b ∷ []) bs

  -- A chain is determined by its bodies: adding them one by one to an empty table rebuilds it.
  pub extend_bodies :
      (bs : List BlockRow) → IsChain bs → extend [] (map (λ b. b.transaction_body) bs) ≡ bs
  extend_bodies [] h = refl
  extend_bodies (b ∷ bs) h =
      ap (λ c. extend (c ∷ []) (map (λ r. r.transaction_body) bs)) (sym h.1)
      ∙ extend-Linked b [] bs h.2

  pub extend-IsChain :
      (bs : List BlockRow) (bodies : List Bytes)
      → IsChain bs
      → All NoNul bodies
      → IsChain (extend bs bodies)
  extend-IsChain bs [] h clean = h
  extend-IsChain bs (body ∷ bodies) h clean =
      extend-IsChain (bs ++ next_block bs body ∷ []) bodies (next_block-IsChain bs body h clean.0)
        clean.1
