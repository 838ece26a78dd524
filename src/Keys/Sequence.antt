-- ===== src/Keys/Sequence.antt =====
-- Two messages to one correspondent in a row: the calls of `encrypt_text_message`
-- (bcm-linux-console/Cpp_part.cpp) use the key one stretch after the other.
use blockchain_crypto_messan.Common.{
  ℕ, zero, suc, ◌+◌, ◌≤◌, ◌≡◌, refl, sym, ap, ◌∙◌, some, List, [], ◌∷◌, ◌++◌, map, length, take,
  drop, arith, drop-drop, length-drop, length-take_le,
}
use native.Mathlib.Nat.{suc-add}
use blockchain_crypto_messan.Common.Int.{ℤ, pos}
use blockchain_crypto_messan.Text.{Bytes, NoNul}
use blockchain_crypto_messan.Pad.{xor_bytes}
use blockchain_crypto_messan.Pad.Laws.{xor_bytes-append}
use blockchain_crypto_messan.Sql.{UserRow, named, update_user}
use blockchain_crypto_messan.Sql.Engine.{Engine, IsSqlite, Node, Runs}
use blockchain_crypto_messan.Keys.{encrypt_text_message}
use blockchain_crypto_messan.Keys.Laws.{Contact, with_seek}
use blockchain_crypto_messan.Keys.Encrypt.{encrypt_text_message_lem}

abbrev pub moved_to : ℤ → UserRow → UserRow
moved_to s r = record r { key_seek = s }

pub named-update_user :
    (user : Bytes) (s : ℤ) (rows : List UserRow)
    → named user (update_user user (moved_to s) rows) ≡ map (moved_to s) (named user rows)
unfolding named update_user
named-update_user user s [] = refl
named-update_user user s (r ∷ rows) = ground (arith, named-update_user user s rows)

-- A contact whose offset has been moved is a contact.
pub Contact-with_seek :
    {n : Node} {user key : Bytes} {seek : ℕ}
    → Contact n user key seek
    → (s : ℕ) → Contact (with_seek n user (pos s)) user key s
Contact-with_seek {n} {user} c s = record {
  new_message = c.new_message;
  plain = c.plain;
  row = named-update_user user (pos s) n.general ∙ ap (map (moved_to (pos s))) c.row;
  key_NoNul = c.key_NoNul;
  key_fits = c.key_fits;
}

take-take-drop : (a b : ℕ) (xs : Bytes) → take a xs ++ take b (drop a xs) ≡ take (a + b) xs
take-take-drop zero b xs = ap (λ k. take k xs) (omega arith)
take-take-drop (suc a) zero [] = rw suc-add refl
take-take-drop (suc a) (suc b) [] = rw suc-add refl
take-take-drop (suc a) b (x ∷ xs) = rw suc-add (ap (λ l. x ∷ l) (take-take-drop a b xs))

-- The second of two messages starts behind the key bytes of the first: together the ciphertexts are
-- the two texts under one stretch of the key, of which no byte is used twice.
pub encrypt_text_message-twice :
    (e : Engine) (q : IsSqlite e) (n : Node) (user key : Bytes) (seek : ℕ) (text₁ text₂ : Bytes)
    → Contact n user key seek
    → NoNul text₁
    → NoNul text₂
    → seek + length text₁ + length text₂ ≤ length key
    → (sealed₁ sealed₂ : Bytes) × Runs e q
        (encrypt_text_message e user text₁)
        n
        (some sealed₁)
        (with_seek n user (pos (seek + length text₁)))
      × Runs e q
          (encrypt_text_message e user text₂)
          (with_seek n user (pos (seek + length text₁)))
          (some sealed₂)
          (with_seek
            (with_seek n user (pos (seek + length text₁)))
            user
            (pos (seek + length text₁ + length text₂)))
      × (sealed₁ ++ sealed₂
          ≡ xor_bytes (text₁ ++ text₂) (take (length text₁ + length text₂) (drop seek key)))
encrypt_text_message-twice e q n user key seek text₁ text₂ c clean₁ clean₂ enough =
    let behind : length (take (length text₁) (drop seek key)) ≡ length text₁ =
      length-take_le (length text₁) (drop seek key)
        (omega (arith, length-drop seek key (omega arith))) in
    (
      xor_bytes text₁ (take (length text₁) (drop seek key)),
      xor_bytes text₂ (take (length text₂) (drop (seek + length text₁) key)),
      encrypt_text_message_lem e q c text₁ clean₁ (omega arith),
      encrypt_text_message_lem e q (Contact-with_seek c (seek + length text₁)) text₂ clean₂ enough,
      sym (xor_bytes-append text₁ text₂ (take (length text₁) (drop seek key)) _ behind)
          ∙ ap
              (λ k.
                xor_bytes (text₁ ++ text₂)
                  (take (length text₁) (drop seek key) ++ take (length text₂) k))
              (sym (drop-drop (length text₁) seek key))
          ∙ ap (xor_bytes (text₁ ++ text₂))
              (take-take-drop (length text₁) (length text₂) (drop seek key)),
    )
