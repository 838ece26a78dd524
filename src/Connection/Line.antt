-- ===== src/Connection/Line.antt =====
-- The line with the destination of the peer (bcm-linux-console/Cpp_part.cpp): what is left of it in
-- `another_dest_ch`.
use blockchain_crypto_messan.Common.{
  ℕ, zero, suc, ◌+◌, ◌≤◌, ◌<◌, ◌≡◌, refl, sym, ap, ◌∙◌, false, List, [], ◌∷◌, ◌++◌, append_assoc,
  arith, length, length-append, leb, ◌==◌, text_eq, text_eq→eq, Bool-cases, subst, inl, inr, All,
}
use blockchain_crypto_messan.Text.{Bytes, NoNul, c_str}
use blockchain_crypto_messan.Program.{returned, fault}
use blockchain_crypto_messan.Wire.{Stream, read_size}
use blockchain_crypto_messan.Connection.{public_key_length, read_byte, read_line, read_dest}

-- No end of a line.
abbrev pub OneLine : Bytes → Type 0
OneLine s = All (λ c. (c == 10) ≡ false) s

-- Each read finds a byte.
abbrev pub Steady : List ℕ → Type 0
Steady amounts = All (λ a. 1 ≤ a) amounts

next_byte :
    (c : ℕ) (s : Bytes) (a : ℕ) (rs : List ℕ)
    → 1 ≤ a
    → read_byte (c ∷ s) (a ∷ rs) ≡ (c, record { arriving = s; amounts = rs })
unfolding read_byte
next_byte c s (suc a) rs h = let one : read_size 1 (suc a) (c ∷ s) ≡ 1 = ground arith in rw one refl
next_byte c s zero rs h = absurd (omega arith)

read_line-Steady :
    (left : ℕ) (got dest s : Bytes) (ones rs : List ℕ)
    → OneLine dest
    → Steady ones
    → length ones ≡ length dest + 1
    → length dest < left
    → read_line left got (dest ++ 10 ∷ s) (ones ++ rs)
      ≡ returned (got ++ (dest ++ 10 ∷ []), record { arriving = s; amounts = rs })
unfolding read_line
read_line-Steady zero got dest s ones rs line steady e room = absurd (omega arith)
read_line-Steady (suc left) got dest s [] rs line steady e room = absurd (omega arith)
read_line-Steady (suc left) got [] s (a ∷ []) rs line steady e room =
    rw (next_byte 10 s a rs steady.0) refl
read_line-Steady (suc left) got [] s (a ∷ a' ∷ ones) rs line steady e room = absurd (omega arith)
read_line-Steady (suc left) got (c ∷ dest) s (a ∷ ones) rs line steady e room =
    rw (next_byte c (dest ++ 10 ∷ s) a (ones ++ rs) steady.0, line.0)
      (read_line-Steady left (got ++ c ∷ []) dest s ones rs line.1 steady.1 (omega arith)
          (omega arith)
        ∙ ap (λ t. returned (t, record { arriving = s; amounts = rs }))
            (append_assoc got (c ∷ []) (dest ++ 10 ∷ [])))

-- A line without NUL that comes steadily is the destination, with its end and one byte more: the
-- one that stands in the array behind it.
pub read_dest-Steady :
    (another_dest_ch : ℕ → ℕ) (dest s : Bytes) (ones rs : List ℕ)
    → NoNul dest
    → OneLine dest
    → Steady ones
    → length ones ≡ length dest + 1
    → length dest + 2 < public_key_length
    → read_dest another_dest_ch (record { arriving = dest ++ 10 ∷ s; amounts = ones ++ rs })
      ≡ returned (
        c_str ((dest ++ 10 ∷ []) ++ another_dest_ch (length dest + 1) ∷ 0 ∷ []),
        record { arriving = s; amounts = rs },
      )
unfolding read_dest
read_dest-Steady another_dest_ch dest s ones rs clean line steady e room =
    let size : length (dest ++ 10 ∷ []) ≡ length dest + 1 = length-append dest (10 ∷ []) in
    let inside : leb public_key_length (length dest + 1 + 1) ≡ false = ground arith in
    rw
      (
        read_line-Steady public_key_length [] dest s ones rs line steady e (omega arith),
        size,
        inside,
      )
      refl

-- What is taken from a stream without an end of a line has none.
read_byte-OneLine :
    (s : Bytes) (rs : List ℕ)
    → OneLine s
    → ((read_byte s rs).0 == 10) ≡ false × OneLine (read_byte s rs).1.arriving
unfolding read_byte
read_byte-OneLine s [] line = (refl, line)
read_byte-OneLine [] (zero ∷ rs) line = (refl, tt)
read_byte-OneLine [] (suc a ∷ rs) line = (refl, tt)
read_byte-OneLine (c ∷ s) (zero ∷ rs) line = (refl, line)
read_byte-OneLine (c ∷ s) (suc a ∷ rs) line =
    let one : read_size 1 (suc a) (c ∷ s) ≡ 1 = ground arith in rw one line

read_line-OneLine :
    (left : ℕ) (got s : Bytes) (rs : List ℕ) → OneLine s → read_line left got s rs ≡ fault
unfolding read_line
read_line-OneLine zero got s rs line = refl
read_line-OneLine (suc left) got s rs line =
    let one = read_byte-OneLine s rs line in
    rw one.0 (
      read_line-OneLine left (got ++ (read_byte s rs).0 ∷ []) (read_byte s rs).1.arriving
        (read_byte s rs).1.amounts one.1)

-- A peer that closes the connection before the end of the line makes the server write behind
-- `another_dest_ch`, whatever has come and in whatever pieces.
pub read_dest-OneLine :
    (another_dest_ch : ℕ → ℕ) (s : Stream)
    → OneLine s.arriving
    → read_dest another_dest_ch s ≡ fault
unfolding read_dest
read_dest-OneLine another_dest_ch s line =
    rw (read_line-OneLine public_key_length [] s.arriving s.amounts line) refl

-- The end of the line stands in what is taken for the destination.
line_end : (dest r : Bytes) → NoNul dest → OneLine (c_str ((dest ++ 10 ∷ []) ++ r)) → ⊥
unfolding c_str
line_end [] r clean line = ground (arith, line.0)
line_end (zero ∷ dest) r clean line = absurd (omega arith)
line_end (suc c ∷ dest) r clean line = line_end dest r clean.1 line.1

-- So it is no destination that is written in one line.
pub dest-other :
    (dest r own : Bytes)
    → NoNul dest
    → OneLine own
    → text_eq (c_str ((dest ++ 10 ∷ []) ++ r)) own ≡ false
dest-other dest r own clean line =
    elim (Bool-cases (text_eq (c_str ((dest ++ 10 ∷ []) ++ r)) own)) [
      | inl same ↦ absurd (line_end dest r clean (subst OneLine (sym (text_eq→eq _ own same)) line))
      | inr other ↦ other
    ]
