-- ===== src/Keys/Encrypt.antt =====
-- What `encrypt_text_message` does on each branch of its test of the key that is left.
use blockchain_crypto_messan.Common.{
  ℕ, suc, ◌+◌, ◌≤◌, ◌<◌, ◌≡◌, subst, subst₂, ap, ◌∙◌, true, false, none, some, [], ◌∷◌, ◌++◌,
  length, take, drop, arith, lt→ltb, length-append, drop-append-le, length-drop,
}
use blockchain_crypto_messan.Common.Int.{pos, ◌+ℤ◌, ◌-ℤ◌, ltb_ℤ}
use blockchain_crypto_messan.Text.{
  Bytes, NoNul, c_str-eq, strncpy, strncpy-append, strncpy_one_more, drop-NoNul,
}
use blockchain_crypto_messan.Pad.{xor_bytes}
use blockchain_crypto_messan.Pad.Laws.{xor_bytes_over_end}
use blockchain_crypto_messan.Sql.Engine.{Engine, IsSqlite, Node, Runs, Runs-pure, Runs-bind}
use blockchain_crypto_messan.Keys.{buf_size, copy_key, encrypt_text_message}
use blockchain_crypto_messan.Keys.Laws.{
  Contact, with_seek, get_key_seek_for_user-Runs, get_key_size_for_user-Runs, get_key_for_user-Runs,
  set_key_seek_for_user-Runs,
}

pub guard_passes : (k s l : ℕ) → s + l ≤ k + 1 → ltb_ℤ (pos k -ℤ pos s) (pos l -ℤ pos 1) ≡ false
unfolding ◌-ℤ◌
guard_passes k s l h = ground arith

guard_refuses : (k s l : ℕ) → k + 1 < s + l → ltb_ℤ (pos k -ℤ pos s) (pos l -ℤ pos 1) ≡ true
unfolding ◌-ℤ◌
guard_refuses k s l h = ground arith

pub pos-+ℤ : (a b : ℕ) → pos a +ℤ pos b ≡ pos (a + b)
unfolding ◌+ℤ◌
pos-+ℤ a b = ground arith

module _ (e : Engine) (q : IsSqlite e) {n : Node} {user key : Bytes} {seek : ℕ}
    (c : Contact n user key seek) (text : Bytes) (no_nul : NoNul text) where
  copy_key-Runs :
      seek < buf_size
      → Runs e q
          (copy_key (key ++ 0 ∷ []) (pos seek) (length text))
          n
          (strncpy (length text) (drop seek (key ++ 0 ∷ [])))
          n
  unfolding copy_key
  copy_key-Runs h = rw (lt→ltb seek buf_size h) (Runs-pure e q _ _)

  -- More than one key byte too few is left for a text without NUL: the message is refused and the
  -- node stays as it was.
  pub encrypt_text_message_refuses :
      length key + 1 < seek + length text → Runs e q (encrypt_text_message e user text) n none n
  unfolding encrypt_text_message
  encrypt_text_message_refuses h = Runs-bind e q _ (get_key_seek_for_user-Runs e q c) (
      Runs-bind e q _ (get_key_size_for_user-Runs e q c) (
        rw (c_str-eq text no_nul, guard_refuses (length key) seek (length text) h)
          (Runs-pure e q _ _)))

  encrypt_text_message_seals :
      seek + length text ≤ length key + 1
      → seek < buf_size
      → Runs e q
          (encrypt_text_message e user text)
          n
          (some (xor_bytes text (strncpy (length text) (drop seek (key ++ 0 ∷ [])))))
          (with_seek n user (pos (seek + length text)))
  unfolding encrypt_text_message
  encrypt_text_message_seals h b = Runs-bind e q _ (get_key_seek_for_user-Runs e q c) (
      Runs-bind e q _ (get_key_size_for_user-Runs e q c) (
        rw (c_str-eq text no_nul, guard_passes (length key) seek (length text) h)
          (Runs-bind e q _ (get_key_for_user-Runs e q c) (
            Runs-bind e q _ (copy_key-Runs b) (
              Runs-bind e q _ (set_key_seek_for_user-Runs e q c _)
                (rw pos-+ℤ (Runs-pure e q _ _)))))))

  -- Enough key is left: each byte of the message is sealed under a key byte of its own, from the
  -- offset of the user on, and the offset moves on by the length of the message.
  pub encrypt_text_message_lem :
      seek + length text ≤ length key
      → Runs e q
          (encrypt_text_message e user text)
          n
          (some (xor_bytes text (take (length text) (drop seek key))))
          (with_seek n user (pos (seek + length text)))
  encrypt_text_message_lem h =
      let under : strncpy (length text) (drop seek (key ++ 0 ∷ []))
          ≡ take (length text) (drop seek key) =
        rw (drop-append-le seek key (0 ∷ []) (omega arith)) (
          strncpy-append (length text) (drop seek key) _ (drop-NoNul seek key c.key_NoNul)
            (omega (arith, length-drop seek key (omega arith)))) in
      subst
        (λ k.
          Runs e q (encrypt_text_message e user text) n (some (xor_bytes text k))
            (with_seek n user (pos (seek + length text))))
        under (encrypt_text_message_seals (omega arith) (omega (arith, c.key_fits)))

module _ (e : Engine) (q : IsSqlite e) {n : Node} {user key : Bytes} {seek : ℕ}
    (c : Contact n user key seek) (body : Bytes) (last : ℕ)
    (no_nul : NoNul (body ++ last ∷ [])) where
  -- One key byte too few is left: the message is accepted all the same, and its last byte goes out
  -- as it is, under the NUL behind the key.
  pub encrypt_text_message_short :
      last < 256
      → seek + length body ≡ length key
      → Runs e q
          (encrypt_text_message e user (body ++ last ∷ []))
          n
          (some (xor_bytes body (drop seek key) ++ last ∷ []))
          (with_seek n user (pos (length key + 1)))
  encrypt_text_message_short byte h =
      let rest : length (drop seek key) ≡ length body =
        omega (arith, length-drop seek key (omega arith)) in
      let size : length (body ++ last ∷ []) ≡ suc (length (drop seek key)) =
        omega (arith, length-append body (last ∷ [])) in
      let under : strncpy (length (body ++ last ∷ [])) (drop seek (key ++ 0 ∷ []))
          ≡ drop seek key ++ 0 ∷ [] =
        rw (drop-append-le seek key (0 ∷ []) (omega arith), size)
          (strncpy_one_more (drop seek key) [] (drop-NoNul seek key c.key_NoNul)) in
      let cipher = xor_bytes_over_end body (drop seek key) last rest byte in
      let moved : seek + length (body ++ last ∷ []) ≡ length key + 1 =
        omega (arith, length-append body (last ∷ [])) in
      subst₂
        (λ r s.
          Runs e q (encrypt_text_message e user (body ++ last ∷ [])) n (some r)
            (with_seek n user (pos s)))
        (ap (xor_bytes (body ++ last ∷ [])) under ∙ cipher) moved
        (encrypt_text_message_seals e q c (body ++ last ∷ []) no_nul (omega arith)
          (omega (arith, c.key_fits)))
