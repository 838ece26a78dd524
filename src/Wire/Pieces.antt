-- ===== src/Wire/Pieces.antt =====
-- The pieces of data on a stream: what the loops of bcm-linux-console/Cpp_part.cpp send and receive.
use blockchain_crypto_messan.Common.{
  ℕ, zero, suc, ◌+◌, ◌-◌, ◌*◌, ◌^◌, ◌≤◌, ◌<◌, ◌≡◌, sym, ap, ◌∙◌, inl, inr, true, false, ◌&&◌, List,
  [], ◌∷◌, ◌++◌, append-nil, append_assoc, arith, length, take, drop, ltb, ◌==◌, ==_iff, ltb→ge,
  if◌then◌else◌, Bool-cases, length-append, length-take-le, length-take_le, length-drop, take-add,
  take_of_le, take-drop, All, le-length-take, length-nil, dec_lt,
}
use blockchain_crypto_messan.Text.{Bytes}
use blockchain_crypto_messan.Program.{returned}
use blockchain_crypto_messan.Wire.{
  piece_size, read_size, receive_last, receive, receive_sized, sent_pieces,
  int_to_unsigned_char_array_4, unsigned_char_array_4_to_int,
}
use blockchain_crypto_messan.Wire.Numbers.{size_arrives}

read_size-le : (n a : ℕ) (s : Bytes) → read_size n a s ≤ length s
read_size-le n a s = ground (arith, length-take-le a s)

two_parts :
    (got s : Bytes) (r size : ℕ)
    → r ≤ length s
    → length got + r ≤ size
    → (got ++ take r s) ++ take (size - (length got + r)) (drop r s)
      ≡ got ++ take (size - length got) s
two_parts got s r size h k =
    append_assoc got (take r s) _
    ∙ ap (λ t. got ++ t)
        (sym (take-add r (size - (length got + r)) s) ∙ ap (λ m. take m s) (omega arith))

all_there : (got s : Bytes) (size : ℕ) → length got ≡ size → got ≡ got ++ take (size - length got) s
all_there got s size e =
    let nothing_left : 0 ≡ size - length got = omega arith in
    sym (append-nil got) ∙ ap (λ k. got ++ take k s) nothing_left

receive_last-take :
    (n : ℕ) (got s : Bytes) (rs : List ℕ) (d : Bytes)
    → receive_last n got s rs ≡ returned d
    → d ≡ got ++ take n s
unfolding receive_last
receive_last-take n got s [] d h = cc
receive_last-take n got s (a ∷ rs) d h = ground arith

-- If it had no more than it wants, what the receiving loop returns is what it had, followed by as
-- many bytes of the peer as are missing.
pub receive-take :
    (size : ℕ) (got s : Bytes) (rs : List ℕ) (d : Bytes)
    → length got ≤ size
    → receive size got s rs ≡ returned d
    → d ≡ got ++ take (size - length got) s
unfolding receive
receive-take size got s [] d le h = elim (Bool-cases (length got == size)) [
  | inl done ↦
      let same : got ≡ d = ground arith in sym same ∙ all_there got s size ((==_iff _ _).0 done)
  | inr more ↦ ground arith
]
receive-take size got s (a ∷ rs) d le h =
    let r : ℕ = read_size piece_size a s in
    let fits : r ≤ length s = read_size-le piece_size a s in
    elim (Bool-cases (length got == size)) [
      | inl done ↦
          let same : got ≡ d = ground arith in sym same ∙ all_there got s size ((==_iff _ _).0 done)
      | inr more ↦ elim (Bool-cases (r == 0)) [
        | inl closed ↦ ground arith
        | inr some_more ↦ elim (Bool-cases (ltb size (length got + r))) [
          | inl over ↦ ground arith
          | inr within ↦
              let room : length got + r ≤ size = ltb→ge _ _ within in
              let longer : length (got ++ take r s) ≡ length got + r =
                length-append got (take r s) ∙ ap (λ k. length got + k) (length-take_le r s fits) in
              elim (Bool-cases
                (ltb (size - (length got + r)) piece_size && ltb 0 (size - (length got + r)))) [
                  | inl last ↦
                      receive_last-take (size - (length got + r)) (got ++ take r s) (drop r s) rs d
                        (ground arith)
                      ∙ two_parts got s r size fits room
                  | inr again ↦
                      receive-take size (got ++ take r s) (drop r s) rs d (omega arith)
                        (ground arith)
                      ∙ ap (λ k. (got ++ take r s) ++ take (size - k) (drop r s)) longer
                      ∙ two_parts got s r size fits room
                ]
        ]
      ]
    ]

-- Every `recv` finds a whole piece, or all that is left: the pieces come at full speed.
abbrev pub FullSpeed : List ℕ → Type 0
FullSpeed rs = All (λ a. piece_size ≤ a) rs

full_read :
    (a : ℕ) (s : Bytes)
    → piece_size ≤ a
    → piece_size ≤ length s
    → read_size piece_size a s ≡ piece_size
full_read a s h k = ground (arith, le-length-take piece_size a s h k)

last_read :
    (n a : ℕ) (s : Bytes) → piece_size ≤ a → n ≤ piece_size → length s ≡ n → read_size n a s ≡ n
last_read n a s h k e = ground (arith, ap length (take_of_le a s (omega arith)))

short_read :
    (a : ℕ) (s : Bytes)
    → piece_size ≤ a
    → length s < piece_size
    → read_size piece_size a s ≡ length s
short_read a s h k = ground (arith, ap length (take_of_le a s (omega arith)))

receive_done :
    (size : ℕ) (got s : Bytes) (rs : List ℕ)
    → length got ≡ size
    → receive size got s rs ≡ returned got
unfolding receive
receive_done size got s [] e = ground arith
receive_done size got s (a ∷ rs) e = ground arith

-- One round that reads `r` bytes.
receive_round :
    (size : ℕ) (got s : Bytes) (a : ℕ) (rs : List ℕ) (r : ℕ)
    → read_size piece_size a s ≡ r
    → 0 < r
    → length got + r ≤ size
    → receive size got s (a ∷ rs) ≡ (
        if ltb (size - (length got + r)) piece_size && ltb 0 (size - (length got + r))
        then receive_last (size - (length got + r)) (got ++ take r s) (drop r s) rs
        else receive size (got ++ take r s) (drop r s) rs)
unfolding receive
receive_round size got s a rs r is some_more room = rw is (ground arith)

receive_last_all :
    (n : ℕ) (got s : Bytes) (rs : List ℕ)
    → FullSpeed rs
    → length s ≡ n
    → n ≤ piece_size
    → 1 ≤ length rs
    → receive_last n got s rs ≡ returned (got ++ s)
unfolding receive_last
receive_last_all n got s [] full e k room = absurd (omega arith)
receive_last_all n got s (a ∷ rs) full e k room =
    let all : (read_size n a s == n) ≡ true = (==_iff _ _).1 (last_read n a s full.0 k e) in
    rw all (ap (λ t. returned (got ++ t)) (take_of_le n s (omega arith)))

last_piece : (n : ℕ) → (ltb n piece_size && ltb 0 n) ≡ true → (n ≤ piece_size) × (0 < n)
last_piece n h = ground arith

-- At full speed all the data is received.
pub receive_all :
    (size : ℕ) (got s : Bytes) (rs : List ℕ)
    → FullSpeed rs
    → length got + length s ≡ size
    → length s ≤ piece_size * length rs
    → receive size got s rs ≡ returned (got ++ s)
unfolding receive receive_last
receive_all size got s [] full e room =
    let nothing : s ≡ [] = length-nil s (omega arith) in
    receive_done size got s [] (omega arith)
    ∙ sym (ap returned (ap (λ t. got ++ t) nothing ∙ append-nil got))
receive_all size got s (a ∷ rs) full e room = elim (dec_lt 0 (length s)) [
  | no empty ↦
      let nothing : s ≡ [] = length-nil s (omega arith) in
      receive_done size got s (a ∷ rs) (omega arith)
      ∙ sym (ap returned (ap (λ t. got ++ t) nothing ∙ append-nil got))
  | yes some_more ↦ elim (dec_lt (length s) piece_size) [
    | yes short ↦
        let test : (ltb (size - (length got + length s)) piece_size
              && ltb 0 (size - (length got + length s)))
            ≡ false =
          ground arith in
        receive_round size got s a rs (length s) (short_read a s full.0 short) some_more
          (omega arith)
        ∙ rw test (
            receive_done size (got ++ take (length s) s) _ rs (
              omega (
                arith,
                length-append got (take (length s) s),
                length-take_le (length s) s (omega arith),
              ))
            ∙ ap (λ t. returned (got ++ t)) (take_of_le (length s) s (omega arith)))
    | no long ↦
        let left : length (drop piece_size s) + piece_size ≡ length s =
          length-drop piece_size s (omega arith) in
        let whole : (got ++ take piece_size s) ++ drop piece_size s ≡ got ++ s =
          append_assoc got (take piece_size s) (drop piece_size s)
          ∙ ap (λ t. got ++ t) (take-drop piece_size s) in
        receive_round size got s a rs piece_size (full_read a s full.0 (omega arith)) (omega arith)
          (omega arith)
        ∙ elim (Bool-cases (
            ltb (size - (length got + piece_size)) piece_size
            && ltb 0 (size - (length got + piece_size)))) [
              | inl last ↦
                  let bound : (size - (length got + piece_size) ≤ piece_size)
                      × (0 < size - (length got + piece_size)) =
                    last_piece _ last in
                  rw last (
                    receive_last_all (size - (length got + piece_size)) (got ++ take piece_size s)
                      (drop piece_size s) rs full.1 (omega arith) bound.0 (omega arith))
                  ∙ ap returned whole
              | inr again ↦
                  rw again (
                    receive_all size (got ++ take piece_size s) (drop piece_size s) rs full.1
                      (omega (
                        arith,
                        length-append got (take piece_size s),
                        length-take_le piece_size s (omega arith),
                      ))
                      (omega arith))
                  ∙ ap returned whole
            ]
  ]
]

-- The loop that sends passes on all the bytes.
abbrev pub join : List Bytes → Bytes
join [] = []
join (piece ∷ pieces) = piece ++ join pieces

sent_pieces-join :
    (rounds : ℕ) (bytes : Bytes) → length bytes < rounds → join (sent_pieces rounds bytes) ≡ bytes
unfolding sent_pieces
sent_pieces-join zero bytes h = absurd (omega arith)
sent_pieces-join (suc rounds) bytes h = elim (Bool-cases (length bytes == 0)) [
  | inl done ↦ rw done (sym (length-nil bytes ((==_iff _ _).0 done)))
  | inr more ↦
      let n : ℕ = if ltb (length bytes) piece_size then length bytes else piece_size in
      let some_bytes : 0 < n = ground arith in
      let fits : n ≤ length bytes = ground arith in
      rw more (
        ap (λ t. take n bytes ++ t)
          (sent_pieces-join rounds (drop n bytes) (omega (arith, length-drop n bytes fits)))
        ∙ take-drop n bytes)
]

-- Data of less than 2 ^ 31 bytes that is announced by its size and sent in pieces is received as
-- it was, if each `recv` finds a whole piece or the rest, and there are enough of them.
pub receive_sized-sent :
    (sent : Bytes) (rs : List ℕ)
    → length sent < 2 ^ 31
    → FullSpeed rs
    → length sent ≤ piece_size * length rs
    → receive_sized
        (unsigned_char_array_4_to_int (int_to_unsigned_char_array_4 (length sent)))
        (record { arriving = join (sent_pieces (length sent + 1) sent); amounts = rs })
      ≡ returned sent
unfolding receive_sized
receive_sized-sent sent rs small full room =
    rw (size_arrives (length sent) small, sent_pieces-join (length sent + 1) sent (omega arith))
      (receive_all (length sent) [] sent rs full (omega arith) room)
