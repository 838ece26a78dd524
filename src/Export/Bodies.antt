-- ===== src/Export/Bodies.antt =====
-- The file of all bodies that `blockchain_from_DB_to_file_c` (bcm-linux-console/C_part.c) writes.
use blockchain_crypto_messan.Common.{
  ℕ, ◌+◌, ◌<◌, ◌≡◌, refl, sym, ap, subst, ◌∙◌, false, none, some, List, [], ◌∷◌, ◌++◌, append_assoc,
  append-nil, map, arith, length, leb, text_eq, text_eq→eq, text_eq_refl, Bool-cases, inl, inr, All,
  length-append,
}
use mathlib.Core.Path.{fun_ext}
use blockchain_crypto_messan.Common.Int.{pos}
use blockchain_crypto_messan.Text.{Bytes, NoNul, c_str-eq}
use blockchain_crypto_messan.Text.Decimal.{to_string, atoi-to_string}
use blockchain_crypto_messan.Transaction.{max_transaction_length}
use blockchain_crypto_messan.Sql.{BlockRow, query, apply, numbered, select_transaction_body}
use blockchain_crypto_messan.Sql.Engine.{
  Engine, IsSqlite, Files, Node, Runs, Runs-pure, Runs-bind, Runs-write, sql_or_exit-Runs,
}
use blockchain_crypto_messan.Keys.Encrypt.{pos-+ℤ}
use blockchain_crypto_messan.Chain.{removed}
use blockchain_crypto_messan.Chain.Links.{Ids}
use blockchain_crypto_messan.Chain.File.{file_of}
use blockchain_crypto_messan.Analysis.Wrappers.{numbered_at}
use blockchain_crypto_messan.Export.{appended, get_transaction_body_where_id_c, bodies_to_file}

-- A body that fits the buffer and ends at its first NUL.
abbrev pub Fits : BlockRow → Type 0
Fits b = NoNul b.transaction_body × (length b.transaction_body < max_transaction_length)

abbrev pub grown : Bytes → List BlockRow → Files → Files
grown name [] files = files
grown name (b ∷ bs) files = grown name bs (appended name (b.transaction_body ++ b'~' ∷ []) files)

pub grown-there :
    (name : Bytes) (bs : List BlockRow) (files : Files) (content : Bytes)
    → files name ≡ some content
    → grown name bs files name ≡ some (content ++ file_of (map (λ b. b.transaction_body) bs))
grown-there name [] files content is = is ∙ ap some (sym (append-nil content))
grown-there name (b ∷ bs) files content is =
    grown-there name bs _ (content ++ (b.transaction_body ++ b'~' ∷ []))
      (rw (text_eq_refl name, is) refl)
    ∙ ap some (
        append_assoc content (b.transaction_body ++ b'~' ∷ []) _
        ∙ ap (λ t. content ++ t) (append_assoc b.transaction_body (b'~' ∷ []) _))

-- A new file holds the bodies.
pub grown-new :
    (name : Bytes) (b : BlockRow) (bs : List BlockRow) (files : Files)
    → files name ≡ none
    → grown name (b ∷ bs) files name ≡ some (file_of (map (λ r. r.transaction_body) (b ∷ bs)))
grown-new name b bs files out =
    grown-there name bs _ (b.transaction_body ++ b'~' ∷ []) (rw (text_eq_refl name, out) refl)
    ∙ ap some (append_assoc b.transaction_body (b'~' ∷ []) _)

grown-other :
    (name other : Bytes) (bs : List BlockRow) (files : Files)
    → text_eq other name ≡ false
    → grown name bs files other ≡ files other
grown-other name other [] files h = refl
grown-other name other (b ∷ bs) files h = grown-other name other bs _ h ∙ rw h refl

-- Once it is removed, nothing is left of it.
pub removed-grown :
    (name : Bytes) (bs : List BlockRow) (files : Files)
    → files name ≡ none
    → removed name (grown name bs files) ≡ files
removed-grown name bs files out = fun_ext (λ other. elim (Bool-cases (text_eq other name)) [
  | inl same ↦ rw same (sym (ap files (text_eq→eq other name same) ∙ out))
  | inr differs ↦ rw differs (grown-other name other bs files differs)
])

module _ (e : Engine) (q : IsSqlite e) where
  get_transaction_body_where_id_c-Runs :
      (n : Node) (id : ℕ) (b : BlockRow)
      → numbered (pos id) n.blockchain ≡ b ∷ []
      → Fits b
      → Runs e q (get_transaction_body_where_id_c e (to_string (pos id))) n b.transaction_body n
  unfolding get_transaction_body_where_id_c query apply
  get_transaction_body_where_id_c-Runs n id b there fits =
      let room : leb max_transaction_length (length b.transaction_body) ≡ false = ground arith in
      rw (atoi-to_string id) (
        Runs-bind e q _ (sql_or_exit-Runs e q (select_transaction_body (pos id)) n tt)
          (rw (there, c_str-eq b.transaction_body fits.0, room) (Runs-pure e q _ _)))

  pub bodies_to_file-Runs :
      (name : Bytes) (before rest : List BlockRow) (id : ℕ) (n : Node)
      → n.blockchain ≡ before ++ rest
      → Ids 1 (before ++ rest)
      → id ≡ 1 + length before
      → All Fits rest
      → Runs e q
          (bodies_to_file e (length rest) (pos id) name)
          n
          tt
          (record n { files = grown name rest n.files })
  unfolding bodies_to_file
  bodies_to_file-Runs name before [] id n is ids at fits = Runs-pure e q tt n
  bodies_to_file-Runs name before (b ∷ rest) id n is ids at fits =
      let step : (before ++ b ∷ []) ++ rest ≡ before ++ b ∷ rest =
        append_assoc before (b ∷ []) rest in
      Runs-bind e q _
        (get_transaction_body_where_id_c-Runs n id b (rw is (numbered_at 1 id before b rest ids at))
          fits.0)
        (rw (c_str-eq b.transaction_body fits.0.0, pos-+ℤ id 1)
          (Runs-bind e q _ (Runs-write e q (appended name (b.transaction_body ++ b'~' ∷ [])) n) (
            bodies_to_file-Runs name (before ++ b ∷ []) rest (id + 1) _ (is ∙ sym step)
              (subst (λ bs. Ids 1 bs) (sym step) ids) (omega (arith, length-append before (b ∷ [])))
              fits.1)))
