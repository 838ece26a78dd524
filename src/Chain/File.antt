-- ===== src/Chain/File.antt =====
-- The file of transactions that travels between nodes: each body is followed by `~`.
use blockchain_crypto_messan.Common.{
  ℕ, ◌+◌, ◌-◌, ◌<◌, ◌≡◌, ◌≢◌, refl, sym, ap, subst, subst₂, ◌∙◌, false, some, List, [], ◌∷◌, ◌++◌,
  map, length, drop, arith, All, length-append, length-map, drop-drop, drop_past, ◌==◌,
}
use blockchain_crypto_messan.Common.Int.{ℤ, pos, ◌+ℤ◌}
use blockchain_crypto_messan.Text.{Bytes, NoNul}
use blockchain_crypto_messan.Text.Decimal.{atoi-to_string}
use blockchain_crypto_messan.Program.{◌>>=◌}
use blockchain_crypto_messan.Transaction.{field}
use blockchain_crypto_messan.Transaction.RoundTrip.{field-copy, All-weaken}
use blockchain_crypto_messan.Sql.{BlockRow}
use blockchain_crypto_messan.Sql.Engine.{
  Engine, IsSqlite, Node, Runs, Runs-pure, Runs-bind, Runs-file, Runs-write,
}
use blockchain_crypto_messan.Keys.Encrypt.{pos-+ℤ}
use blockchain_crypto_messan.Chain.{
  removed, add_transaction, add_transactions, blockchain_from_file_to_db,
}
use blockchain_crypto_messan.Chain.Links.{
  IsChain, next_block, next_block-IsChain, extend, extend_bodies,
}
use blockchain_crypto_messan.Chain.Import.{
  with_blocks, add_transaction-Runs, how_many_transaction_id-Runs,
}

-- A body that the file can carry: no `~` and no NUL.
abbrev pub IsEntry : Bytes → Type 0
IsEntry s = All (λ c. (0 < c) × (c ≢ b'~')) s

abbrev pub file_of : List Bytes → Bytes
file_of [] = []
file_of (body ∷ bodies) = body ++ b'~' ∷ file_of bodies

pub IsEntry-NoNul : (s : Bytes) → IsEntry s → NoNul s
IsEntry-NoNul s = All-weaken s (λ c h. h.0)

module _ (e : Engine) (q : IsSqlite e) (md5 : Bytes → Bytes) (limit : ℕ) where
  -- The loop passes over the bytes of a body.
  add_transactions-body :
      (buf s rest : Bytes) (i general_length : ℕ) (last_id : ℤ)
      → IsEntry s
      → add_transactions e md5 (pos limit) buf (s ++ b'~' ∷ rest) i general_length last_id
        ≡ add_transactions e md5 (pos limit) buf (b'~' ∷ rest) (i + length s) general_length last_id
  unfolding add_transactions ◌>>=◌
  add_transactions-body buf [] rest i general_length last_id h =
      ap (λ k. add_transactions e md5 (pos limit) buf (b'~' ∷ rest) k general_length last_id)
        (omega arith)
  add_transactions-body buf (c ∷ s) rest i general_length last_id h =
      let other : (c == b'~') ≡ false = ground arith in
      rw other refl
      ∙ add_transactions-body buf s rest (i + 1) general_length last_id h.1
      ∙ ap (λ k. add_transactions e md5 (pos limit) buf (b'~' ∷ rest) k general_length last_id)
          (omega arith)

  add_transactions-Runs :
      (buf : Bytes) (bodies : List Bytes) (g i : ℕ) (last_id : ℤ) (n : Node) (bs : List BlockRow)
      → i ≡ g
      → last_id ≡ pos (length bs)
      → n.blockchain ≡ bs
      → IsChain md5 bs
      → All IsEntry bodies
      → drop g buf ≡ file_of bodies
      → length bs + length bodies < limit
      → Runs e q
          (add_transactions e md5 (pos limit) buf (file_of bodies) i g last_id)
          n
          tt
          (with_blocks n (extend md5 bs bodies))
  unfolding add_transactions
  add_transactions-Runs buf [] g i last_id n bs same counted is h clean at room =
      subst
        (λ r.
          Runs e q (add_transactions e md5 (pos limit) buf [] i g last_id) n tt (with_blocks n r))
        is (Runs-pure e q _ _)
  add_transactions-Runs buf (body ∷ bodies) g i last_id n bs same counted is h clean at room =
      let read : field buf g (i + length body - g) ≡ body =
        ap (field buf g) (omega arith) ∙ field-copy buf g body _ at (IsEntry-NoNul body clean.0) in
      let behind : drop (g + (i + length body - g) + 1) buf ≡ file_of bodies =
        ap (λ k. drop k buf) (omega arith)
        ∙ sym (drop-drop (length body + 1) g buf)
        ∙ ap (drop (length body + 1)) at
        ∙ drop_past body b'~' _ in
      subst (λ m. Runs e q m n tt (with_blocks n (extend md5 bs (body ∷ bodies))))
        (sym (add_transactions-body buf body (file_of bodies) i g last_id clean.0))
        (Runs-bind e q _
          (subst₂
            (λ id s.
              Runs e q (add_transaction e md5 (pos limit) id s) n tt
                (with_blocks n (bs ++ next_block md5 bs body ∷ [])))
            (sym counted) (sym read)
            (add_transaction-Runs e q md5 n limit bs body is h (IsEntry-NoNul body clean.0)
              (omega arith)))
          (add_transactions-Runs buf bodies _ _ _ _ (bs ++ next_block md5 bs body ∷ [])
            (omega arith)
            (ap (λ z. z +ℤ pos 1) counted ∙ pos-+ℤ _ 1 ∙ ap pos (sym (length-append bs _))) refl
            (next_block-IsChain md5 bs body h (IsEntry-NoNul body clean.0)) clean.1 behind
            (omega (arith, length-append bs (next_block md5 bs body ∷ [])))))

  -- The import of a file of bodies, none with NUL or `~`, that leaves the chain below the limit,
  -- appends one linked block for each body in their order, and removes the file.
  pub blockchain_from_file_to_db-Runs :
      (name : Bytes) (bodies : List Bytes) (n : Node) (bs : List BlockRow)
      → n.files name ≡ some (file_of bodies)
      → n.blockchain ≡ bs
      → IsChain md5 bs
      → All IsEntry bodies
      → length bs + length bodies < limit
      → Runs e q
          (blockchain_from_file_to_db e md5 (pos limit) name)
          n
          tt
          (record (with_blocks n (extend md5 bs bodies)) { files = removed name n.files })
  unfolding blockchain_from_file_to_db
  blockchain_from_file_to_db-Runs name bodies n bs there is h clean room =
      Runs-bind e q _ (Runs-file e q name n) (
        rw there (
          Runs-bind e q _
            (Runs-bind e q _ (how_many_transaction_id-Runs e q n) (
              add_transactions-Runs (file_of bodies) bodies 0 0 _ n bs refl
                (atoi-to_string _ ∙ ap (λ r. pos (length r)) is) is h clean refl room))
            (Runs-write e q (removed name) _)))

  -- A node with an empty chain that imports the file of the bodies of a chain, which is shorter than
  -- the limit and has no `~` in a body, has the same chain afterwards, hash by hash, and the file is
  -- gone.
  pub replica :
      (name : Bytes) (n : Node) (bs : List BlockRow)
      → n.files name ≡ some (file_of (map (λ b. b.transaction_body) bs))
      → n.blockchain ≡ []
      → IsChain md5 bs
      → All IsEntry (map (λ b. b.transaction_body) bs)
      → length bs < limit
      → Runs e q
          (blockchain_from_file_to_db e md5 (pos limit) name)
          n
          tt
          (record (with_blocks n bs) { files = removed name n.files })
  replica name n bs there empty h clean room =
      let size : length (map (λ b. b.transaction_body) bs) ≡ length bs =
        length-map (λ b. b.transaction_body) bs in
      subst
        (λ r.
          Runs e q (blockchain_from_file_to_db e md5 (pos limit) name) n tt
            (record (with_blocks n r) { files = removed name n.files }))
        (extend_bodies md5 bs h)
        (blockchain_from_file_to_db-Runs name (map (λ b. b.transaction_body) bs) n [] there empty tt
          clean (omega arith))
