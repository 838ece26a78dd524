-- ===== src/Transaction/RoundTrip.antt =====
-- What Messenger.cpp writes, `parser` reads back.
use blockchain_crypto_messan.Common.{
  ℕ, zero, suc, ◌+◌, ◌-◌, ◌<◌, ◌≢◌, ◌≡◌, sym, ap, ◌∙◌, [], ◌∷◌, ◌++◌, arith, length, All, drop,
  drop-drop, drop_past, take_all, length-append, append_assoc, ◌≤◌, All-append,
}
use blockchain_crypto_messan.Common.Int.{pos}
use blockchain_crypto_messan.Text.{Bytes, NoNul, c_str, strncpy, c_str-eq, strncpy-append}
use blockchain_crypto_messan.Text.Decimal.{to_string, atoi, to_string-IsDigit, atoi-to_string}
use blockchain_crypto_messan.Program.{returned}
use blockchain_crypto_messan.Transaction.{
  separator, find_separator, next_separator, field, parse_within, compose, parser,
  max_transaction_length,
}

-- A field that the format can carry: no separator and no NUL.
abbrev pub IsField : Bytes → Type 0
IsField s = All (λ c. (0 < c) × (c ≢ separator)) s

pub IsField-NoNul : (s : Bytes) → IsField s → NoNul s
IsField-NoNul [] h = tt
IsField-NoNul (c ∷ s) h = (h.0.0, IsField-NoNul s h.1)

find_separator-field :
    (s rest : Bytes) (rounds i : ℕ)
    → IsField s
    → length s < rounds
    → find_separator rounds (s ++ separator ∷ rest) i ≡ returned (i + length s)
unfolding find_separator
find_separator-field s rest zero i h le = absurd (omega arith)
find_separator-field [] rest (suc rounds) i h le = ground arith
find_separator-field (c ∷ s) rest (suc rounds) i h le =
    ground (arith, find_separator-field s rest rounds (i + 1) h.1)

-- A copy of as many bytes as stand before something else.
pub field-copy :
    (body : Bytes) (p : ℕ) (s rest : Bytes)
    → drop p body ≡ s ++ rest
    → NoNul s
    → field body p (length s) ≡ s
field-copy body p s rest at h =
    ap c_str
      (ap (strncpy (length s)) at ∙ strncpy-append (length s) s rest h (omega arith) ∙ take_all s)
    ∙ c_str-eq s h

-- The cursor stands at `p` before a field `s` of the buffer.
module _ (body : Bytes) (p : ℕ) (s rest : Bytes) (at : drop p body ≡ s ++ separator ∷ rest) where
  -- The loop stops behind the field,
  pub next_separator-at :
      (limit : ℕ)
      → IsField s
      → p + length s < limit
      → next_separator limit body p ≡ returned (p + length s)
  unfolding next_separator
  next_separator-at limit h le = rw at (find_separator-field s rest (limit - p) p h (omega arith))

  -- the copy reads it,
  pub field-at : IsField s → field body p (length s) ≡ s
  field-at h = field-copy body p s (separator ∷ rest) at (IsField-NoNul s h)

  -- and the rest follows one byte further.
  pub drop-after : drop (p + length s + 1) body ≡ rest
  drop-after =
      ap (λ k. drop k body) (omega arith)
      ∙ sym (drop-drop (length s + 1) p body)
      ∙ ap (drop (length s + 1)) at
      ∙ drop_past s separator rest

abbrev pub joined : Bytes → Bytes → Bytes → Bytes → Bytes → Bytes → Bytes
joined a b c d m rest =
    a
    ++ separator ∷ (b ++ separator ∷ (c ++ separator ∷ (d ++ separator ∷ (m ++ separator ∷ rest))))

-- The starts of the second to the fifth field.
abbrev pub p₁ : Bytes → ℕ
p₁ a = 0 + length a + 1

abbrev pub p₂ : Bytes → Bytes → ℕ
p₂ a b = p₁ a + length b + 1

abbrev pub p₃ : Bytes → Bytes → Bytes → ℕ
p₃ a b c = p₂ a b + length c + 1

abbrev pub p₄ : Bytes → Bytes → Bytes → Bytes → ℕ
p₄ a b c d = p₃ a b c + length d + 1

length-joined : (a b c d m : Bytes) → length (joined a b c d m []) ≡ p₄ a b c d + length m + 1
length-joined a b c d m = omega (
  arith,
  length-append a
      (separator ∷ (b ++ separator ∷ (c ++ separator ∷ (d ++ separator ∷ (m ++ separator ∷ []))))),
  length-append b (separator ∷ (c ++ separator ∷ (d ++ separator ∷ (m ++ separator ∷ [])))),
  length-append c (separator ∷ (d ++ separator ∷ (m ++ separator ∷ []))),
  length-append d (separator ∷ (m ++ separator ∷ [])),
  length-append m (separator ∷ []),
)

module _ (a b c d m : Bytes) (body rest : Bytes) (at₀ : drop 0 body ≡ joined a b c d m rest)
    (limit : ℕ) (ha : IsField a) (hb : IsField b) (hc : IsField c) (hd : IsField d) (hm : IsField m)
    (fits : p₄ a b c d + length m < limit) where
  at₁ :
      drop (p₁ a) body
      ≡ b ++ separator ∷ (c ++ separator ∷ (d ++ separator ∷ (m ++ separator ∷ rest)))
  at₁ = drop-after body 0 a _ at₀

  at₂ : drop (p₂ a b) body ≡ c ++ separator ∷ (d ++ separator ∷ (m ++ separator ∷ rest))
  at₂ = drop-after body (p₁ a) b _ at₁

  at₃ : drop (p₃ a b c) body ≡ d ++ separator ∷ (m ++ separator ∷ rest)
  at₃ = drop-after body (p₂ a b) c _ at₂

  at₄ : drop (p₄ a b c d) body ≡ m ++ separator ∷ rest
  at₄ = drop-after body (p₃ a b c) d _ at₃

  parse_within-joined :
      parse_within limit body
      ≡ returned (record {
        id = atoi a;
        reciever = b;
        sender = c;
        time_of_sending = d;
        decrypt_message = m;
      })
  unfolding parse_within
  parse_within-joined =
      let size_b : p₁ a + length b - 1 - (0 + length a) ≡ length b = omega arith in
      let size_c : p₂ a b + length c - 2 - (0 + length a) - length b ≡ length c = omega arith in
      let size_d : p₃ a b c + length d - 3 - length b - length c - (0 + length a) ≡ length d =
        omega arith in
      let size_m : p₄ a b c d + length m - 4 - length b - length c - length d - (0 + length a)
          ≡ length m =
        omega arith in
      let from_c : length b + (0 + length a) + 2 ≡ p₂ a b = omega arith in
      let from_d : length b + length c + (0 + length a) + 3 ≡ p₃ a b c = omega arith in
      let from_m : length b + length c + length d + (0 + length a) + 4 ≡ p₄ a b c d = omega arith in
      let read_a : field body 0 (0 + length a) ≡ a =
        ap (field body 0) (omega arith) ∙ field-at body 0 a _ at₀ ha in
      rw (
        next_separator-at body 0 a _ at₀ limit ha (omega arith),
        next_separator-at body (p₁ a) b _ at₁ limit hb (omega arith),
        next_separator-at body (p₂ a b) c _ at₂ limit hc (omega arith),
        next_separator-at body (p₃ a b c) d _ at₃ limit hd (omega arith),
        next_separator-at body (p₄ a b c d) m _ at₄ limit hm (omega arith),
        size_b,
        size_c,
        size_d,
        size_m,
        from_c,
        from_d,
        from_m,
        read_a,
        field-at body (p₁ a) b _ at₁ hb,
        field-at body (p₂ a b) c _ at₂ hc,
        field-at body (p₃ a b c) d _ at₃ hd,
        field-at body (p₄ a b c d) m _ at₄ hm,
      )

pub All-weaken {ℓ κ} :
    {P : ℕ → Type ℓ} {Q : ℕ → Type κ} (s : Bytes) → ((c : ℕ) → P c → Q c) → All P s → All Q s
All-weaken [] f h = tt
All-weaken (c ∷ s) f h = (f c h.0, All-weaken s f h.1)

pub to_string-IsField : (n : ℕ) → IsField (to_string (pos n))
to_string-IsField n =
    All-weaken (to_string (pos n)) (λ c d. (omega arith, omega arith)) (to_string-IsDigit n)

pub joined-NoNul :
    (a b c d m : Bytes)
    → IsField a
    → IsField b
    → IsField c
    → IsField d
    → IsField m
    → NoNul (joined a b c d m [])
joined-NoNul a b c d m ha hb hc hd hm =
    ends a ha _ (ends b hb _ (ends c hc _ (ends d hd _ (ends m hm [] tt))))
  where
    ends : (s : Bytes) → IsField s → (rest : Bytes) → NoNul rest → NoNul (s ++ separator ∷ rest)
    ends s h rest k = All-append _ s (separator ∷ rest) (IsField-NoNul s h) (omega arith, k)

-- What Messenger.cpp composes from a number and four texts without `;` and NUL, `parser` takes
-- apart into the same number and texts, if the whole is shorter than MAX_TRANSACTION_LENGTH.
pub parser-compose :
    (id : ℕ) (user_name my_name date_time message : Bytes)
    → IsField user_name
    → IsField my_name
    → IsField date_time
    → IsField message
    → length (compose (pos id) user_name my_name date_time message) ≤ max_transaction_length
    → parser (compose (pos id) user_name my_name date_time message)
      ≡ returned (record {
        id = pos id;
        reciever = user_name;
        sender = my_name;
        time_of_sending = date_time;
        decrypt_message = message;
      })
unfolding parser compose
parser-compose id b c d m hb hc hd hm fits =
    let a = to_string (pos id) in
    let ha = to_string-IsField id in
    let clean : c_str (joined a b c d m []) ≡ joined a b c d m [] =
      c_str-eq _ (joined-NoNul a b c d m ha hb hc hd hm) in
    let buffer : joined a b c d m [] ++ 0 ∷ [] ≡ joined a b c d m (0 ∷ []) = simp append_assoc in
    let e =
      parse_within-joined a b c d m (joined a b c d m [] ++ 0 ∷ []) (0 ∷ []) buffer
        max_transaction_length ha hb hc hd hm (omega (arith, length-joined a b c d m)) in
    rw clean (rw atoi-to_string at e)
