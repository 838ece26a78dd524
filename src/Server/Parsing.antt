-- ===== src/Server/Parsing.antt =====
-- What is read from a well-formed announcement (bcm-linux-console/Cpp_part.cpp,
-- send_message_server_part_function_i2pd).
use blockchain_crypto_messan.Common.{
  ℕ, ◌+◌, ◌-◌, ◌<◌, ◌≡◌, ap, ◌∙◌, [], ◌∷◌, ◌++◌, length, drop, arith, append_assoc, length-append,
}
use blockchain_crypto_messan.Common.Int.{pos}
use blockchain_crypto_messan.Text.{Bytes, NoNul}
use blockchain_crypto_messan.Text.Decimal.{to_string, atoi, atoi-to_string}
use blockchain_crypto_messan.Program.{returned}
use blockchain_crypto_messan.Transaction.{separator, field}
use blockchain_crypto_messan.Transaction.RoundTrip.{
  IsField, next_separator-at, field-at, field-copy, drop-after, p₁, to_string-IsField,
}
use blockchain_crypto_messan.Keys.{buf_size}
use blockchain_crypto_messan.Server.{read_within, read_announcement}

-- What a sender writes: <ID>;<HASH>;<message>
abbrev pub announcement_text : Bytes → Bytes → Bytes → Bytes
announcement_text id hash message = id ++ separator ∷ (hash ++ separator ∷ message)

module _ (a h m body : Bytes) (at₀ : drop 0 body ≡ announcement_text a h (m ++ 0 ∷ []))
    (ha : IsField a) (hh : IsField h) (hm : NoNul m) (limit : ℕ)
    (fits : length a + length h + 1 < limit) where
  at₁ : drop (p₁ a) body ≡ h ++ separator ∷ (m ++ 0 ∷ [])
  at₁ = drop-after body 0 a _ at₀

  at₂ : drop (p₁ a + length h + 1) body ≡ m ++ 0 ∷ []
  at₂ = drop-after body (p₁ a) h _ at₁

  read_within-at :
      (total : ℕ)
      → total ≡ length a + length h + length m + 2
      → read_within limit total body
        ≡ returned (record { id = atoi a; hash_of_before_id = h; encrypt_message_part = m })
  unfolding read_within
  read_within-at total size =
      let size_h : p₁ a + length h - 1 - (0 + length a) ≡ length h = omega arith in
      let size_m : total - (0 + length a) - length h - 2 ≡ length m = omega arith in
      let from_m : 0 + length a + length h + 2 ≡ p₁ a + length h + 1 = omega arith in
      let read_a : field body 0 (0 + length a) ≡ a =
        ap (field body 0) (omega arith) ∙ field-at body 0 a _ at₀ ha in
      rw (
        next_separator-at body 0 a _ at₀ limit ha (omega arith),
        next_separator-at body (p₁ a) h _ at₁ limit hh (omega arith),
        size_h,
        size_m,
        from_m,
        read_a,
        field-at body (p₁ a) h _ at₁ hh,
        field-copy body (p₁ a + length h + 1) m _ at₂ hm,
      )

-- A number, a hash and a message that are announced are read back, if the first two fit BUF_SIZE
-- and the message has no NUL.
pub read_announcement-text :
    (id : ℕ) (hash message : Bytes)
    → IsField hash
    → NoNul message
    → length (to_string (pos id)) + length hash + 1 < buf_size
    → read_announcement (announcement_text (to_string (pos id)) hash message)
      ≡ returned (record { id = pos id; hash_of_before_id = hash; encrypt_message_part = message })
unfolding read_announcement
read_announcement-text id hash message hh hm fits =
    let a = to_string (pos id) in
    let text = announcement_text a hash message in
    let buffer : text ++ 0 ∷ [] ≡ announcement_text a hash (message ++ 0 ∷ []) =
      simp append_assoc in
    let size : length text ≡ length a + length hash + length message + 2 = omega (
      arith,
      length-append a (separator ∷ (hash ++ separator ∷ message)),
      length-append hash (separator ∷ message),
    ) in
    let e =
      read_within-at a hash message (text ++ 0 ∷ []) buffer (to_string-IsField id) hh hm buf_size
        fits (length text) size in
    rw atoi-to_string at e
