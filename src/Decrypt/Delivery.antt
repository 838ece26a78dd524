-- ===== src/Decrypt/Delivery.antt =====
-- From the sender's `encrypt_text_message` to the receiver's `try_decrypt`: the message arrives,
-- and both nodes move the offset of the shared key by the same number of bytes.
use blockchain_crypto_messan.Common.{
  ℕ, ◌+◌, ◌≤◌, ◌<◌, ◌≡◌, ◌≢◌, ap, subst, ◌∙◌, true, some, List, [], ◌∷◌, ◌++◌, map, length, take,
  drop, arith, lt→ltb, length-drop, length-take_le, drop-append-le, text_eq_refl, All, All-append,
}
use blockchain_crypto_messan.Common.Int.{pos, ◌+ℤ◌}
use blockchain_crypto_messan.Text.{
  Bytes, NoNul, c_str, c_str-eq, strncpy, strncpy-append, drop-NoNul,
}
use blockchain_crypto_messan.Text.Decimal.{to_string, to_string-IsDigit}
use blockchain_crypto_messan.Pad.{xor_bytes}
use blockchain_crypto_messan.Pad.Laws.{
  IsAscii, IsHigh, IsHigh-NoNul, IsAscii-NoNul, length-xor_bytes, xor_bytes-IsHigh, xor_bytes_twice,
  take-IsHigh, drop-IsHigh,
}
use blockchain_crypto_messan.Transaction.{separator, compose, parser, max_transaction_length}
use blockchain_crypto_messan.Transaction.RoundTrip.{
  IsField, All-weaken, to_string-IsField, parser-compose,
}
use blockchain_crypto_messan.Program.{returned}
use blockchain_crypto_messan.Sql.Engine.{Engine, IsSqlite, Node, Runs}
use blockchain_crypto_messan.Keys.{buf_size, encrypt_text_message}
use blockchain_crypto_messan.Keys.Laws.{Contact, with_seek}
use blockchain_crypto_messan.Keys.Encrypt.{guard_passes, pos-+ℤ, encrypt_text_message_lem}
use blockchain_crypto_messan.Decrypt.Roster.{Peer, Known, PassedOver, try_decrypt-Runs}
use blockchain_crypto_messan.Decrypt.{
  max_number_of_users, try_decrypt, attempt, decrypted, judge, names_in, is_addressed,
}
use blockchain_crypto_messan.Decrypt.Separators.{names_in-joined}

-- A name or a text that a message can carry: ASCII without separator and NUL.
abbrev pub IsWord : Bytes → Type 0
IsWord s = All (λ c. (0 < c) × (c < 128) × (c ≢ separator)) s

pub IsWord-IsField : (s : Bytes) → IsWord s → IsField s
IsWord-IsField s = All-weaken s (λ c h. (h.0, h.2))

pub IsWord-IsAscii : (s : Bytes) → IsWord s → IsAscii s
IsWord-IsAscii s = All-weaken s (λ c h. (h.0, h.1))

to_string-IsAscii : (n : ℕ) → IsAscii (to_string (pos n))
to_string-IsAscii n =
    All-weaken (to_string (pos n)) (λ c d. (omega arith, omega arith)) (to_string-IsDigit n)

pub ended : (s rest : Bytes) → IsAscii s → IsAscii rest → IsAscii (s ++ separator ∷ rest)
ended s rest h k = All-append _ s (separator ∷ rest) h ((omega arith, omega arith), k)

-- The stretch of the key that a message of `l` bytes uses.
abbrev pub stretch : Bytes → ℕ → ℕ → Bytes
stretch key seek l = take l (drop seek key)

module _ (key : Bytes) (seek l : ℕ) (high : IsHigh key) (enough : seek + l ≤ length key) where
  pub length-stretch : length (stretch key seek l) ≡ l
  length-stretch =
      length-take_le l (drop seek key) (omega (arith, length-drop seek key (omega arith)))

  stretch-IsHigh : IsHigh (stretch key seek l)
  stretch-IsHigh = take-IsHigh l (drop seek key) (drop-IsHigh seek key high)

  strncpy-stretch : strncpy l (drop seek (key ++ 0 ∷ [])) ≡ stretch key seek l
  strncpy-stretch = rw (drop-append-le seek key (0 ∷ []) (omega arith)) (
      strncpy-append l (drop seek key) _ (drop-NoNul seek key (IsHigh-NoNul key high))
        (omega (arith, length-drop seek key (omega arith))))

module _ (key text : Bytes) (seek : ℕ) (high : IsHigh key) (ascii : IsAscii text)
    (enough : seek + length text ≤ length key) where
  abbrev cipher : Bytes
  cipher = xor_bytes text (stretch key seek (length text))

  length-cipher : length cipher ≡ length text
  length-cipher =
      length-xor_bytes text _ (omega (arith, length-stretch key seek (length text) high enough))

  pub cipher-IsHigh : IsHigh cipher
  cipher-IsHigh = xor_bytes-IsHigh text _ ascii (stretch-IsHigh key seek (length text) high enough)

  pub cipher-NoNul : NoNul cipher
  cipher-NoNul = IsHigh-NoNul cipher cipher-IsHigh

  -- The ciphertext of an ASCII text without NUL, under enough bytes of a key from 128 to 255, has the
  -- length of the text, and as a C string it is not cut off.
  pub cipher_whole : (length cipher ≡ length text) × (c_str cipher ≡ cipher)
  cipher_whole = (length-cipher, c_str-eq cipher cipher-NoNul)

  opened : xor_bytes cipher (stretch key seek (length text)) ≡ text
  opened =
      xor_bytes_twice text _ ascii (stretch-IsHigh key seek (length text) high enough)
        (omega (arith, length-stretch key seek (length text) high enough))

  -- The round of the loop for the key that sealed the message looks at the text itself.
  pub attempt-cipher :
      (my_name user : Bytes)
      → seek < buf_size
      → attempt my_name user (key ++ 0 ∷ []) (pos (length key)) (pos seek) cipher
        ≡ judge my_name user text (names_in text)
  unfolding attempt
  attempt-cipher my_name user fits = rw (
    length-cipher,
    guard_passes (length key) seek (length text) (omega arith),
    lt→ltb seek buf_size fits,
    strncpy-stretch key seek (length text) high enough,
    opened,
  )

is_addressed_lem : (me from : Bytes) → is_addressed me from me from ≡ true
unfolding is_addressed
is_addressed_lem me from = ground (arith, text_eq_refl me, text_eq_refl from)

module _ (id : ℕ) (me from time message : Bytes) (me_word : IsWord me) (from_word : IsWord from)
    (time_word : IsWord time) (message_word : IsWord message) where
  abbrev text : Bytes
  text = compose (pos id) me from time message

  pub compose-IsAscii : IsAscii text
  unfolding compose
  compose-IsAscii = ended _ _ (to_string-IsAscii id) (
      ended me _ (IsWord-IsAscii me me_word) (
        ended from _ (IsWord-IsAscii from from_word) (
          ended time _ (IsWord-IsAscii time time_word)
            (ended message [] (IsWord-IsAscii message message_word) tt))))

  pub judge-compose :
      0 < length me → 0 < length from → judge me from text (names_in text) ≡ decrypted text
  unfolding compose judge
  judge-compose me_named from_named =
      rw
        (
          names_in-joined (to_string (pos id)) me from time message (to_string-IsField id)
              (IsWord-IsField me me_word) (IsWord-IsField from from_word) me_named from_named,
          is_addressed_lem me from,
        )
        (ap decrypted (c_str-eq _ (unfold compose in IsAscii-NoNul text compose-IsAscii)))

-- A message of ASCII words without `;` and NUL, which the sender encrypts for the receiver `me` under
-- a key of bytes from 128 to 255, enough of which is left, and at the offset that both nodes keep for
-- each other, is decrypted by the receiver's `try_decrypt` to the same text, provided that the keys
-- of the at most ten correspondents before the sender pass over it. Both nodes move the offset behind
-- the message, and the parser finds the fields that were composed.
pub delivery :
    (e : Engine) (q : IsSqlite e) (sender receiver : Node) (key : Bytes) (seek id : ℕ)
    (me from time message : Bytes) (before after : List Peer)
    → Contact sender me key seek
    → Known e q receiver (before ++ record { user = from; key = key; seek = seek } ∷ after)
    → map (λ r. r.user_name) receiver.general
      ≡ map (λ x. x.user) (before ++ record { user = from; key = key; seek = seek } ∷ after)
    → length (before ++ record { user = from; key = key; seek = seek } ∷ after)
      ≤ max_number_of_users
    → IsHigh key
    → IsWord me
    → IsWord from
    → IsWord time
    → IsWord message
    → 0 < length me
    → 0 < length from
    → seek + length (compose (pos id) me from time message) ≤ length key
    → PassedOver e q receiver me
        (xor_bytes
          (compose (pos id) me from time message)
          (stretch key seek (length (compose (pos id) me from time message))))
        before
    → let text = compose (pos id) me from time message in
      let sealed = xor_bytes text (stretch key seek (length text)) in
      Runs e q
        (encrypt_text_message e me text)
        sender
        (some sealed)
        (with_seek sender me (pos (seek + length text)))
      × Runs e q
          (try_decrypt e me sealed)
          receiver
          (some text)
          (with_seek receiver from (pos (seek + length text)))
      × (parser text
          ≡ returned (record {
            id = pos id;
            reciever = me;
            sender = from;
            time_of_sending = time;
            decrypt_message = message;
          }))
unfolding max_transaction_length
delivery e q sender receiver key seek id me from time message before after cs known names few high
      hm hf ht hx lm lf enough over =
    let text = compose (pos id) me from time message in
    let ascii = compose-IsAscii id me from time message hm hf ht hx in
    let fits = cs.key_fits in
    let whole = cipher_whole key text seek high ascii enough in
    let opens =
      attempt-cipher key text seek high ascii enough me from (omega arith)
      ∙ judge-compose id me from time message hm hf ht hx lm lf in
    let sealed = xor_bytes text (stretch key seek (length text)) in
    let moved = ap (λ k. pos seek +ℤ pos k) whole.0 ∙ pos-+ℤ seek (length text) in
    (
      encrypt_text_message_lem e q cs text (IsAscii-NoNul text ascii) enough,
      subst
          (λ z. Runs e q (try_decrypt e me sealed) receiver (some text) (with_seek receiver from z))
          moved
          (try_decrypt-Runs e q receiver me sealed before
            (record { user = from; key = key; seek = seek }) after text
            (cipher-NoNul key text seek high ascii enough) names few known over opens),
      parser-compose id me from time message (IsWord-IsField me hm) (IsWord-IsField from hf)
          (IsWord-IsField time ht) (IsWord-IsField message hx) (omega arith),
    )
