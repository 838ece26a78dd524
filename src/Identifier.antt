-- ===== src/Identifier.antt =====
-- Which names SQLite takes for a new table without quotes, as bcm-linux-console/Cpp_part.cpp writes the
-- name of a correspondent into CREATE TABLE.
use blockchain_crypto_messan.Common.{
  ℕ, ◌-◌, Bool, true, false, not, ◌&&◌, ◌||◌, List, [], ◌∷◌, map, leb, ◌==◌, if◌then◌else◌, text_eq,
  take,
}
use blockchain_crypto_messan.Text.{Bytes}

-- Names are compared without regard to case.
abbrev upper : ℕ → ℕ
upper c = if leb 97 c && leb c 122 then c - 32 else c

unfoldable pub same_name : Bytes → Bytes → Bool
same_name a b = text_eq (map upper a) (map upper b)

unfoldable pub any_name : (Bytes → Bool) → List Bytes → Bool
any_name test [] = false
any_name test (name ∷ names) = let later = any_name test names in if test name then true else later

abbrev is_letter : ℕ → Bool
is_letter c = (leb 65 (upper c) && leb (upper c) 90) || (c == b'_')

abbrev is_digit : ℕ → Bool
is_digit c = leb 48 c && leb c 57

unfoldable pub all_letters : Bytes → Bool
all_letters [] = true
all_letters (c ∷ name) =
    let later = all_letters name in if is_letter c || is_digit c then later else false

-- The tables that each node has.
abbrev own_tables : List Bytes
own_tables =
    (b'G' ∷ b'E' ∷ b'N' ∷ b'E' ∷ b'R' ∷ b'A' ∷ b'L' ∷ b'_' ∷ b'T' ∷ b'A' ∷ b'B' ∷ b'L' ∷ b'E' ∷ [])
    ∷ (b'B' ∷ b'L' ∷ b'O' ∷ b'C' ∷ b'K' ∷ b'C' ∷ b'H' ∷ b'A' ∷ b'I' ∷ b'N' ∷ b'_' ∷ b'T' ∷ b'A'
        ∷ b'B' ∷ b'L' ∷ b'E' ∷ [])
    ∷ (b'C' ∷ b'O' ∷ b'N' ∷ b'F' ∷ b'I' ∷ b'G' ∷ b'_' ∷ b'T' ∷ b'A' ∷ b'B' ∷ b'L' ∷ b'E' ∷ [])
    ∷ []

-- "SQLITE_"
abbrev reserved : Bytes
reserved = b'S' ∷ b'Q' ∷ b'L' ∷ b'I' ∷ b'T' ∷ b'E' ∷ b'_' ∷ []

abbrev keywords : List Bytes
keywords =
    (b'A' ∷ b'B' ∷ b'O' ∷ b'R' ∷ b'T' ∷ [])
    ∷ (b'A' ∷ b'C' ∷ b'T' ∷ b'I' ∷ b'O' ∷ b'N' ∷ [])
    ∷ (b'A' ∷ b'D' ∷ b'D' ∷ [])
    ∷ (b'A' ∷ b'F' ∷ b'T' ∷ b'E' ∷ b'R' ∷ [])
    ∷ (b'A' ∷ b'L' ∷ b'L' ∷ [])
    ∷ (b'A' ∷ b'L' ∷ b'T' ∷ b'E' ∷ b'R' ∷ [])
    ∷ (b'A' ∷ b'L' ∷ b'W' ∷ b'A' ∷ b'Y' ∷ b'S' ∷ [])
    ∷ (b'A' ∷ b'N' ∷ b'A' ∷ b'L' ∷ b'Y' ∷ b'Z' ∷ b'E' ∷ [])
    ∷ (b'A' ∷ b'N' ∷ b'D' ∷ [])
    ∷ (b'A' ∷ b'S' ∷ [])
    ∷ (b'A' ∷ b'S' ∷ b'C' ∷ [])
    ∷ (b'A' ∷ b'T' ∷ b'T' ∷ b'A' ∷ b'C' ∷ b'H' ∷ [])
    ∷ (b'A' ∷ b'U' ∷ b'T' ∷ b'O' ∷ b'I' ∷ b'N' ∷ b'C' ∷ b'R' ∷ b'E' ∷ b'M' ∷ b'E' ∷ b'N' ∷ b'T'
        ∷ [])
    ∷ (b'B' ∷ b'E' ∷ b'F' ∷ b'O' ∷ b'R' ∷ b'E' ∷ [])
    ∷ (b'B' ∷ b'E' ∷ b'G' ∷ b'I' ∷ b'N' ∷ [])
    ∷ (b'B' ∷ b'E' ∷ b'T' ∷ b'W' ∷ b'E' ∷ b'E' ∷ b'N' ∷ [])
    ∷ (b'B' ∷ b'Y' ∷ [])
    ∷ (b'C' ∷ b'A' ∷ b'S' ∷ b'C' ∷ b'A' ∷ b'D' ∷ b'E' ∷ [])
    ∷ (b'C' ∷ b'A' ∷ b'S' ∷ b'E' ∷ [])
    ∷ (b'C' ∷ b'A' ∷ b'S' ∷ b'T' ∷ [])
    ∷ (b'C' ∷ b'H' ∷ b'E' ∷ b'C' ∷ b'K' ∷ [])
    ∷ (b'C' ∷ b'O' ∷ b'L' ∷ b'L' ∷ b'A' ∷ b'T' ∷ b'E' ∷ [])
    ∷ (b'C' ∷ b'O' ∷ b'L' ∷ b'U' ∷ b'M' ∷ b'N' ∷ [])
    ∷ (b'C' ∷ b'O' ∷ b'M' ∷ b'M' ∷ b'I' ∷ b'T' ∷ [])
    ∷ (b'C' ∷ b'O' ∷ b'N' ∷ b'F' ∷ b'L' ∷ b'I' ∷ b'C' ∷ b'T' ∷ [])
    ∷ (b'C' ∷ b'O' ∷ b'N' ∷ b'S' ∷ b'T' ∷ b'R' ∷ b'A' ∷ b'I' ∷ b'N' ∷ b'T' ∷ [])
    ∷ (b'C' ∷ b'R' ∷ b'E' ∷ b'A' ∷ b'T' ∷ b'E' ∷ [])
    ∷ (b'C' ∷ b'R' ∷ b'O' ∷ b'S' ∷ b'S' ∷ [])
    ∷ (b'C' ∷ b'U' ∷ b'R' ∷ b'R' ∷ b'E' ∷ b'N' ∷ b'T' ∷ [])
    ∷ (b'C' ∷ b'U' ∷ b'R' ∷ b'R' ∷ b'E' ∷ b'N' ∷ b'T' ∷ b'_' ∷ b'D' ∷ b'A' ∷ b'T' ∷ b'E' ∷ [])
    ∷ (b'C' ∷ b'U' ∷ b'R' ∷ b'R' ∷ b'E' ∷ b'N' ∷ b'T' ∷ b'_' ∷ b'T' ∷ b'I' ∷ b'M' ∷ b'E' ∷ [])
    ∷ (b'C' ∷ b'U' ∷ b'R' ∷ b'R' ∷ b'E' ∷ b'N' ∷ b'T' ∷ b'_' ∷ b'T' ∷ b'I' ∷ b'M' ∷ b'E' ∷ b'S'
        ∷ b'T' ∷ b'A' ∷ b'M' ∷ b'P' ∷ [])
    ∷ (b'D' ∷ b'A' ∷ b'T' ∷ b'A' ∷ b'B' ∷ b'A' ∷ b'S' ∷ b'E' ∷ [])
    ∷ (b'D' ∷ b'E' ∷ b'F' ∷ b'A' ∷ b'U' ∷ b'L' ∷ b'T' ∷ [])
    ∷ (b'D' ∷ b'E' ∷ b'F' ∷ b'E' ∷ b'R' ∷ b'R' ∷ b'A' ∷ b'B' ∷ b'L' ∷ b'E' ∷ [])
    ∷ (b'D' ∷ b'E' ∷ b'F' ∷ b'E' ∷ b'R' ∷ b'R' ∷ b'E' ∷ b'D' ∷ [])
    ∷ (b'D' ∷ b'E' ∷ b'L' ∷ b'E' ∷ b'T' ∷ b'E' ∷ [])
    ∷ (b'D' ∷ b'E' ∷ b'S' ∷ b'C' ∷ [])
    ∷ (b'D' ∷ b'E' ∷ b'T' ∷ b'A' ∷ b'C' ∷ b'H' ∷ [])
    ∷ (b'D' ∷ b'I' ∷ b'S' ∷ b'T' ∷ b'I' ∷ b'N' ∷ b'C' ∷ b'T' ∷ [])
    ∷ (b'D' ∷ b'O' ∷ [])
    ∷ (b'D' ∷ b'R' ∷ b'O' ∷ b'P' ∷ [])
    ∷ (b'E' ∷ b'A' ∷ b'C' ∷ b'H' ∷ [])
    ∷ (b'E' ∷ b'L' ∷ b'S' ∷ b'E' ∷ [])
    ∷ (b'E' ∷ b'N' ∷ b'D' ∷ [])
    ∷ (b'E' ∷ b'S' ∷ b'C' ∷ b'A' ∷ b'P' ∷ b'E' ∷ [])
    ∷ (b'E' ∷ b'X' ∷ b'C' ∷ b'E' ∷ b'P' ∷ b'T' ∷ [])
    ∷ (b'E' ∷ b'X' ∷ b'C' ∷ b'L' ∷ b'U' ∷ b'D' ∷ b'E' ∷ [])
    ∷ (b'E' ∷ b'X' ∷ b'C' ∷ b'L' ∷ b'U' ∷ b'S' ∷ b'I' ∷ b'V' ∷ b'E' ∷ [])
    ∷ (b'E' ∷ b'X' ∷ b'I' ∷ b'S' ∷ b'T' ∷ b'S' ∷ [])
    ∷ (b'E' ∷ b'X' ∷ b'P' ∷ b'L' ∷ b'A' ∷ b'I' ∷ b'N' ∷ [])
    ∷ (b'F' ∷ b'A' ∷ b'I' ∷ b'L' ∷ [])
    ∷ (b'F' ∷ b'I' ∷ b'L' ∷ b'T' ∷ b'E' ∷ b'R' ∷ [])
    ∷ (b'F' ∷ b'I' ∷ b'R' ∷ b'S' ∷ b'T' ∷ [])
    ∷ (b'F' ∷ b'O' ∷ b'L' ∷ b'L' ∷ b'O' ∷ b'W' ∷ b'I' ∷ b'N' ∷ b'G' ∷ [])
    ∷ (b'F' ∷ b'O' ∷ b'R' ∷ [])
    ∷ (b'F' ∷ b'O' ∷ b'R' ∷ b'E' ∷ b'I' ∷ b'G' ∷ b'N' ∷ [])
    ∷ (b'F' ∷ b'R' ∷ b'O' ∷ b'M' ∷ [])
    ∷ (b'F' ∷ b'U' ∷ b'L' ∷ b'L' ∷ [])
    ∷ (b'G' ∷ b'E' ∷ b'N' ∷ b'E' ∷ b'R' ∷ b'A' ∷ b'T' ∷ b'E' ∷ b'D' ∷ [])
    ∷ (b'G' ∷ b'L' ∷ b'O' ∷ b'B' ∷ [])
    ∷ (b'G' ∷ b'R' ∷ b'O' ∷ b'U' ∷ b'P' ∷ [])
    ∷ (b'G' ∷ b'R' ∷ b'O' ∷ b'U' ∷ b'P' ∷ b'S' ∷ [])
    ∷ (b'H' ∷ b'A' ∷ b'V' ∷ b'I' ∷ b'N' ∷ b'G' ∷ [])
    ∷ (b'I' ∷ b'F' ∷ [])
    ∷ (b'I' ∷ b'G' ∷ b'N' ∷ b'O' ∷ b'R' ∷ b'E' ∷ [])
    ∷ (b'I' ∷ b'M' ∷ b'M' ∷ b'E' ∷ b'D' ∷ b'I' ∷ b'A' ∷ b'T' ∷ b'E' ∷ [])
    ∷ (b'I' ∷ b'N' ∷ [])
    ∷ (b'I' ∷ b'N' ∷ b'D' ∷ b'E' ∷ b'X' ∷ [])
    ∷ (b'I' ∷ b'N' ∷ b'D' ∷ b'E' ∷ b'X' ∷ b'E' ∷ b'D' ∷ [])
    ∷ (b'I' ∷ b'N' ∷ b'I' ∷ b'T' ∷ b'I' ∷ b'A' ∷ b'L' ∷ b'L' ∷ b'Y' ∷ [])
    ∷ (b'I' ∷ b'N' ∷ b'N' ∷ b'E' ∷ b'R' ∷ [])
    ∷ (b'I' ∷ b'N' ∷ b'S' ∷ b'E' ∷ b'R' ∷ b'T' ∷ [])
    ∷ (b'I' ∷ b'N' ∷ b'S' ∷ b'T' ∷ b'E' ∷ b'A' ∷ b'D' ∷ [])
    ∷ (b'I' ∷ b'N' ∷ b'T' ∷ b'E' ∷ b'R' ∷ b'S' ∷ b'E' ∷ b'C' ∷ b'T' ∷ [])
    ∷ (b'I' ∷ b'N' ∷ b'T' ∷ b'O' ∷ [])
    ∷ (b'I' ∷ b'S' ∷ [])
    ∷ (b'I' ∷ b'S' ∷ b'N' ∷ b'U' ∷ b'L' ∷ b'L' ∷ [])
    ∷ (b'J' ∷ b'O' ∷ b'I' ∷ b'N' ∷ [])
    ∷ (b'K' ∷ b'E' ∷ b'Y' ∷ [])
    ∷ (b'L' ∷ b'A' ∷ b'S' ∷ b'T' ∷ [])
    ∷ (b'L' ∷ b'E' ∷ b'F' ∷ b'T' ∷ [])
    ∷ (b'L' ∷ b'I' ∷ b'K' ∷ b'E' ∷ [])
    ∷ (b'L' ∷ b'I' ∷ b'M' ∷ b'I' ∷ b'T' ∷ [])
    ∷ (b'M' ∷ b'A' ∷ b'T' ∷ b'C' ∷ b'H' ∷ [])
    ∷ (b'M' ∷ b'A' ∷ b'T' ∷ b'E' ∷ b'R' ∷ b'I' ∷ b'A' ∷ b'L' ∷ b'I' ∷ b'Z' ∷ b'E' ∷ b'D' ∷ [])
    ∷ (b'N' ∷ b'A' ∷ b'T' ∷ b'U' ∷ b'R' ∷ b'A' ∷ b'L' ∷ [])
    ∷ (b'N' ∷ b'O' ∷ [])
    ∷ (b'N' ∷ b'O' ∷ b'T' ∷ [])
    ∷ (b'N' ∷ b'O' ∷ b'T' ∷ b'H' ∷ b'I' ∷ b'N' ∷ b'G' ∷ [])
    ∷ (b'N' ∷ b'O' ∷ b'T' ∷ b'N' ∷ b'U' ∷ b'L' ∷ b'L' ∷ [])
    ∷ (b'N' ∷ b'U' ∷ b'L' ∷ b'L' ∷ [])
    ∷ (b'N' ∷ b'U' ∷ b'L' ∷ b'L' ∷ b'S' ∷ [])
    ∷ (b'O' ∷ b'F' ∷ [])
    ∷ (b'O' ∷ b'F' ∷ b'F' ∷ b'S' ∷ b'E' ∷ b'T' ∷ [])
    ∷ (b'O' ∷ b'N' ∷ [])
    ∷ (b'O' ∷ b'R' ∷ [])
    ∷ (b'O' ∷ b'R' ∷ b'D' ∷ b'E' ∷ b'R' ∷ [])
    ∷ (b'O' ∷ b'T' ∷ b'H' ∷ b'E' ∷ b'R' ∷ b'S' ∷ [])
    ∷ (b'O' ∷ b'U' ∷ b'T' ∷ b'E' ∷ b'R' ∷ [])
    ∷ (b'O' ∷ b'V' ∷ b'E' ∷ b'R' ∷ [])
    ∷ (b'P' ∷ b'A' ∷ b'R' ∷ b'T' ∷ b'I' ∷ b'T' ∷ b'I' ∷ b'O' ∷ b'N' ∷ [])
    ∷ (b'P' ∷ b'L' ∷ b'A' ∷ b'N' ∷ [])
    ∷ (b'P' ∷ b'R' ∷ b'A' ∷ b'G' ∷ b'M' ∷ b'A' ∷ [])
    ∷ (b'P' ∷ b'R' ∷ b'E' ∷ b'C' ∷ b'E' ∷ b'D' ∷ b'I' ∷ b'N' ∷ b'G' ∷ [])
    ∷ (b'P' ∷ b'R' ∷ b'I' ∷ b'M' ∷ b'A' ∷ b'R' ∷ b'Y' ∷ [])
    ∷ (b'Q' ∷ b'U' ∷ b'E' ∷ b'R' ∷ b'Y' ∷ [])
    ∷ (b'R' ∷ b'A' ∷ b'I' ∷ b'S' ∷ b'E' ∷ [])
    ∷ (b'R' ∷ b'A' ∷ b'N' ∷ b'G' ∷ b'E' ∷ [])
    ∷ (b'R' ∷ b'E' ∷ b'C' ∷ b'U' ∷ b'R' ∷ b'S' ∷ b'I' ∷ b'V' ∷ b'E' ∷ [])
    ∷ (b'R' ∷ b'E' ∷ b'F' ∷ b'E' ∷ b'R' ∷ b'E' ∷ b'N' ∷ b'C' ∷ b'E' ∷ b'S' ∷ [])
    ∷ (b'R' ∷ b'E' ∷ b'G' ∷ b'E' ∷ b'X' ∷ b'P' ∷ [])
    ∷ (b'R' ∷ b'E' ∷ b'I' ∷ b'N' ∷ b'D' ∷ b'E' ∷ b'X' ∷ [])
    ∷ (b'R' ∷ b'E' ∷ b'L' ∷ b'E' ∷ b'A' ∷ b'S' ∷ b'E' ∷ [])
    ∷ (b'R' ∷ b'E' ∷ b'N' ∷ b'A' ∷ b'M' ∷ b'E' ∷ [])
    ∷ (b'R' ∷ b'E' ∷ b'P' ∷ b'L' ∷ b'A' ∷ b'C' ∷ b'E' ∷ [])
    ∷ (b'R' ∷ b'E' ∷ b'S' ∷ b'T' ∷ b'R' ∷ b'I' ∷ b'C' ∷ b'T' ∷ [])
    ∷ (b'R' ∷ b'E' ∷ b'T' ∷ b'U' ∷ b'R' ∷ b'N' ∷ b'I' ∷ b'N' ∷ b'G' ∷ [])
    ∷ (b'R' ∷ b'I' ∷ b'G' ∷ b'H' ∷ b'T' ∷ [])
    ∷ (b'R' ∷ b'O' ∷ b'L' ∷ b'L' ∷ b'B' ∷ b'A' ∷ b'C' ∷ b'K' ∷ [])
    ∷ (b'R' ∷ b'O' ∷ b'W' ∷ [])
    ∷ (b'R' ∷ b'O' ∷ b'W' ∷ b'S' ∷ [])
    ∷ (b'S' ∷ b'A' ∷ b'V' ∷ b'E' ∷ b'P' ∷ b'O' ∷ b'I' ∷ b'N' ∷ b'T' ∷ [])
    ∷ (b'S' ∷ b'E' ∷ b'L' ∷ b'E' ∷ b'C' ∷ b'T' ∷ [])
    ∷ (b'S' ∷ b'E' ∷ b'T' ∷ [])
    ∷ (b'T' ∷ b'A' ∷ b'B' ∷ b'L' ∷ b'E' ∷ [])
    ∷ (b'T' ∷ b'E' ∷ b'M' ∷ b'P' ∷ [])
    ∷ (b'T' ∷ b'E' ∷ b'M' ∷ b'P' ∷ b'O' ∷ b'R' ∷ b'A' ∷ b'R' ∷ b'Y' ∷ [])
    ∷ (b'T' ∷ b'H' ∷ b'E' ∷ b'N' ∷ [])
    ∷ (b'T' ∷ b'I' ∷ b'E' ∷ b'S' ∷ [])
    ∷ (b'T' ∷ b'O' ∷ [])
    ∷ (b'T' ∷ b'R' ∷ b'A' ∷ b'N' ∷ b'S' ∷ b'A' ∷ b'C' ∷ b'T' ∷ b'I' ∷ b'O' ∷ b'N' ∷ [])
    ∷ (b'T' ∷ b'R' ∷ b'I' ∷ b'G' ∷ b'G' ∷ b'E' ∷ b'R' ∷ [])
    ∷ (b'U' ∷ b'N' ∷ b'B' ∷ b'O' ∷ b'U' ∷ b'N' ∷ b'D' ∷ b'E' ∷ b'D' ∷ [])
    ∷ (b'U' ∷ b'N' ∷ b'I' ∷ b'O' ∷ b'N' ∷ [])
    ∷ (b'U' ∷ b'N' ∷ b'I' ∷ b'Q' ∷ b'U' ∷ b'E' ∷ [])
    ∷ (b'U' ∷ b'P' ∷ b'D' ∷ b'A' ∷ b'T' ∷ b'E' ∷ [])
    ∷ (b'U' ∷ b'S' ∷ b'I' ∷ b'N' ∷ b'G' ∷ [])
    ∷ (b'V' ∷ b'A' ∷ b'C' ∷ b'U' ∷ b'U' ∷ b'M' ∷ [])
    ∷ (b'V' ∷ b'A' ∷ b'L' ∷ b'U' ∷ b'E' ∷ b'S' ∷ [])
    ∷ (b'V' ∷ b'I' ∷ b'E' ∷ b'W' ∷ [])
    ∷ (b'V' ∷ b'I' ∷ b'R' ∷ b'T' ∷ b'U' ∷ b'A' ∷ b'L' ∷ [])
    ∷ (b'W' ∷ b'H' ∷ b'E' ∷ b'N' ∷ [])
    ∷ (b'W' ∷ b'H' ∷ b'E' ∷ b'R' ∷ b'E' ∷ [])
    ∷ (b'W' ∷ b'I' ∷ b'N' ∷ b'D' ∷ b'O' ∷ b'W' ∷ [])
    ∷ (b'W' ∷ b'I' ∷ b'T' ∷ b'H' ∷ [])
    ∷ (b'W' ∷ b'I' ∷ b'T' ∷ b'H' ∷ b'I' ∷ b'N' ∷ [])
    ∷ (b'W' ∷ b'I' ∷ b'T' ∷ b'H' ∷ b'O' ∷ b'U' ∷ b'T' ∷ [])
    ∷ []

-- A letter, then letters and digits, that are no keyword and no reserved name.
unfoldable pub is_table_name : Bytes → Bool
unfolding same_name any_name all_letters
is_table_name [] = false
is_table_name (c ∷ name) =
    is_letter c
    && all_letters name
    && not (same_name (take 7 (c ∷ name)) reserved)
    && not (any_name (same_name (c ∷ name)) keywords)
    && not (any_name (same_name (c ∷ name)) own_tables)
