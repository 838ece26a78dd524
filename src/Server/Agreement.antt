-- ===== src/Server/Agreement.antt =====
-- Which announcements a node agrees with (bcm-linux-console/Cpp_part.cpp,
-- send_message_server_part_function_i2pd).
use blockchain_crypto_messan.Common.{
  ℕ, zero, suc, ◌+◌, ◌≡◌, refl, sym, ap, subst, Bool, true, false, List, [], ◌∷◌, ◌&&◌, length,
  arith, text_eq, text_eq_refl, All-append,
}
use blockchain_crypto_messan.Common.Int.{pos, ◌-ℤ◌}
use blockchain_crypto_messan.Text.{Bytes, NoNul, c_str-eq}
use blockchain_crypto_messan.Text.Decimal.{to_string, atoi-to_string}
use blockchain_crypto_messan.Transaction.RoundTrip.{IsField, IsField-NoNul, to_string-IsField}
use blockchain_crypto_messan.Sql.{BlockRow, query, apply, select_transaction_hash, same_int}
use blockchain_crypto_messan.Sql.Engine.{
  Engine, IsSqlite, Node, Runs, Runs-pure, Runs-bind, sql_or_exit-Runs,
}
use blockchain_crypto_messan.Keys.{each_row}
use blockchain_crypto_messan.Chain.{keep_text, get_hash_id_container}
use blockchain_crypto_messan.Chain.Links.{IsChain, last_hash, numbered-IsChain, last_hash-NoNul}
use blockchain_crypto_messan.Chain.Import.{get_how_much_id-Runs}
use blockchain_crypto_messan.Server.{Announcement, hashes_down, compared, agrees}
use blockchain_crypto_messan.Server.Parsing.{announcement_text}

-- The hash that the database hands over for a number.
abbrev pub stored_hash : Node → ℕ → Bytes
stored_hash n k = each_row keep_text [] (query (select_transaction_hash (pos k)) n.tables)

abbrev stored_hashes : Node → ℕ → List Bytes
stored_hashes n zero = []
stored_hashes n (suc k) = stored_hash n (suc k) ∷ stored_hashes n k

pub stored_hash-last :
    (md5 : Bytes → Bytes) (n : Node) (b : BlockRow) (bs : List BlockRow)
    → n.blockchain ≡ b ∷ bs
    → IsChain md5 (b ∷ bs)
    → stored_hash n (length (b ∷ bs)) ≡ last_hash b.transaction_hash bs
unfolding query
stored_hash-last md5 n b bs is h =
    rw (is, numbered-IsChain md5 b bs h, c_str-eq _ (last_hash-NoNul md5 b bs h)) refl

-- The announcement of the next block behind `b ∷ bs`, and the text of it.
abbrev pub next_announcement : BlockRow → List BlockRow → Bytes → Announcement
next_announcement b bs message = record {
  id = pos (length (b ∷ bs) + 1);
  hash_of_before_id = last_hash b.transaction_hash bs;
  encrypt_message_part = message;
}

abbrev pub next_text : BlockRow → List BlockRow → Bytes → Bytes
next_text b bs message =
    announcement_text (to_string (pos (length (b ∷ bs) + 1))) (last_hash b.transaction_hash bs)
      message

pub next_text-NoNul :
    (b : BlockRow) (bs : List BlockRow) (message : Bytes)
    → IsField (last_hash b.transaction_hash bs)
    → NoNul message
    → NoNul (next_text b bs message)
next_text-NoNul b bs message h clean =
    All-append _ (to_string (pos (length (b ∷ bs) + 1))) _
      (IsField-NoNul _ (to_string-IsField (length (b ∷ bs) + 1)))
      (
        omega arith,
        All-append _ (last_hash b.transaction_hash bs) _ (IsField-NoNul _ h) (omega arith, clean),
      )

module _ (e : Engine) (q : IsSqlite e) where
  pub stored_hash-Runs :
      (n : Node) (k : ℕ)
      → Runs e q (get_hash_id_container e (to_string (pos k))) n (stored_hash n k) n
  unfolding get_hash_id_container apply
  stored_hash-Runs n k = rw (atoi-to_string k) (
      Runs-bind e q _ (sql_or_exit-Runs e q (select_transaction_hash (pos k)) n tt)
        (Runs-pure e q _ _))

  hashes_down-Runs : (n : Node) (k : ℕ) → Runs e q (hashes_down e k) n (stored_hashes n k) n
  unfolding hashes_down
  hashes_down-Runs n zero = Runs-pure e q _ _
  hashes_down-Runs n (suc k) =
      Runs-bind e q _ (stored_hash-Runs n (suc k))
        (Runs-bind e q _ (hashes_down-Runs n k) (Runs-pure e q _ _))

  agrees-Runs :
      (n : Node) (a : Announcement) (agreed : Bool)
      → Runs e q
          (compared e a (length n.blockchain) (stored_hashes n (length n.blockchain)))
          n
          agreed
          n
      → Runs e q (agrees e a) n agreed n
  unfolding agrees
  agrees-Runs n a agreed r = Runs-bind e q _ (get_how_much_id-Runs e q n) (
      rw (atoi-to_string (length n.blockchain))
        (Runs-bind e q _ (hashes_down-Runs n (length n.blockchain)) r))

  -- A node with at least two blocks does not agree with an announcement that names another number
  -- than the next one, or another hash than that of its last block.
  pub agrees-refuses :
      (md5 : Bytes → Bytes) (n : Node) (a : Announcement) (b c : BlockRow) (bs : List BlockRow)
      → n.blockchain ≡ b ∷ c ∷ bs
      → IsChain md5 (b ∷ c ∷ bs)
      → (same_int (a.id -ℤ pos 1) (pos (length (b ∷ c ∷ bs)))
          && text_eq a.hash_of_before_id (last_hash b.transaction_hash (c ∷ bs)))
        ≡ false
      → Runs e q (agrees e a) n false n
  agrees-refuses md5 n a b c bs is h other = agrees-Runs n a false (
      subst (λ k. Runs e q (compared e a k (stored_hashes n k)) n false n) (sym (ap length is))
        (rw (stored_hash-last md5 n b (c ∷ bs) is h, other) (Runs-pure e q _ _)))

  pub agrees-next :
      (md5 : Bytes → Bytes) (n : Node) (message : Bytes) (b : BlockRow) (bs : List BlockRow)
      → n.blockchain ≡ b ∷ bs
      → IsChain md5 (b ∷ bs)
      → Runs e q (agrees e (next_announcement b bs message)) n true n
  unfolding ◌-ℤ◌
  agrees-next md5 n message b bs is h =
      let next : same_int (pos (length (b ∷ bs) + 1) -ℤ pos 1) (pos (length (b ∷ bs))) ≡ true =
        ground arith in
      agrees-Runs n (next_announcement b bs message) true (
        subst
          (λ k.
            Runs e q (compared e (next_announcement b bs message) k (stored_hashes n k)) n true n)
          (sym (ap length is))
          (rw
            (stored_hash-last md5 n b bs is h, next, text_eq_refl (last_hash b.transaction_hash bs))
            (Runs-pure e q _ _)))
