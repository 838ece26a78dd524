-- ===== src/Sql/Engine.antt =====
-- SQLite itself, which the program links against: a parameter with its documented behaviour, the
-- world of a node (its database and its files), and the two ways in which the wrappers of
-- Cpp_part.cpp call it.
use blockchain_crypto_messan.Common.{
  ◌≡◌, refl, ap, ◌∙◌, subst, Bool, true, Option, List, if◌then◌else◌,
}
use blockchain_crypto_messan.Program.{returned, Exec, pure, exit, gets, ◌>>=◌, >>=-returned}
use blockchain_crypto_messan.Text.{Bytes}
use blockchain_crypto_messan.Sql.{Statement, Tables, Row, query, apply, Accepts}

-- `sqlite3_open` and `sqlite3_exec`: whether the call succeeded, the rows handed to the callback,
-- and the database afterwards.
pub record Engine : Type 1 where
  pub Db : Type 0
  pub opens : Db → Bool
  pub exec : Db → Statement → Bool × List Row × Db

-- The documented behaviour: the file opens, and a statement that SQL accepts succeeds, hands over
-- the rows that it selects and changes the tables as it says.
pub record IsSqlite (e : Engine) : Type 0 where
  pub tables : e.Db → Tables
  pub open_succeeds : (d : e.Db) → e.opens d ≡ true
  pub exec_succeeds : (d : e.Db) (s : Statement) → Accepts s (tables d) → (e.exec d s).0 ≡ true
  pub exec_rows :
      (d : e.Db) (s : Statement) → Accepts s (tables d) → (e.exec d s).1 ≡ query s (tables d)
  pub exec_tables :
      (d : e.Db) (s : Statement) → Accepts s (tables d) → tables (e.exec d s).2 ≡ apply s (tables d)

-- The files of the working directory, by name.
abbrev pub Files : Type 0
Files = Bytes → Option Bytes

pub record World (e : Engine) : Type 0 where
  pub db : e.Db
  pub files : Files

-- How a call ended: `sqlite3_open` failed, `sqlite3_exec` failed, or the rows it handed over.
pub data Reply : Type 0 where
  cannot_open sql_error : Reply
  selected : List Row → Reply

module _ (e : Engine) where
  -- The common part of the wrappers: open the database, run one statement, close it.
  unfoldable pub run_sql : Statement → Exec (World e) Reply
  run_sql s w =
      if e.opens w.db
      then (let (ok, rows, db) = e.exec w.db s in
          (returned (if ok then selected rows else sql_error), record w { db = db }))
      else (returned cannot_open, w)

  -- The wrappers that call `exit(1)` on either error.
  abbrev pub rows_or_exit : Reply → Exec (World e) (List Row)
  rows_or_exit cannot_open = exit
  rows_or_exit sql_error = exit
  rows_or_exit (selected rows) = pure rows

  unfoldable pub sql_or_exit : Statement → Exec (World e) (List Row)
  unfolding run_sql
  sql_or_exit s = do result ← run_sql s; rows_or_exit result

-- What a client of the database can see of a world.
pub record Node : Type 0 where
  pub tables : Tables
  pub open tables use *
  pub files : Files

module _ (e : Engine) (q : IsSqlite e) where
  abbrev pub view : World e → Node
  view w = record { tables = q.tables w.db; files = w.files }

  -- From any world with the view `n`, `m` returns `a` and leaves the view `n'`.
  pub record Runs {A : Type 0} (m : Exec (World e) A) (n : Node) (a : A) (n' : Node) : Type 0 where
    pub at : (w : World e) → view w ≡ n → (w' : World e) × (m w ≡ (returned a, w')) × (view w' ≡ n')

  pub Runs-pure : {A : Type 0} (a : A) (n : Node) → Runs (pure a) n a n
  Runs-pure a n = record { at = λ w v. (w, refl, v) }

  pub Runs-file : (name : Bytes) (n : Node) → Runs (gets (λ w. w.files name)) n (n.files name) n
  Runs-file name n = record { at = λ w v. (w, ap (λ k. (returned (k.files name), w)) v, v) }

  pub Runs-write :
      (files : Files → Files) (n : Node)
      → Runs
          (λ w. (returned tt, record w { files = files w.files }))
          n
          tt
          (record n { files = files n.files })
  Runs-write files n = record {
    at = λ w v. (
      record w { files = files w.files },
      refl,
      ap {A = Node} {B = Node} (λ k. record k { files = files k.files }) v,
    );
  }

  pub Runs-bind :
      {A B : Type 0} {m : Exec (World e) A} (f : A → Exec (World e) B) {n n₁ n₂ : Node} {a : A}
      {b : B}
      → Runs m n a n₁
      → Runs (f a) n₁ b n₂
      → Runs (m >>= f) n b n₂
  Runs-bind {m} f r k = record {
    at = λ w v.
        let (w₁, e₁, v₁) = r.at w v in
        let (w₂, e₂, v₂) = k.at w₁ v₁ in (w₂, >>=-returned m f w e₁ ∙ e₂, v₂);
  }

  abbrev Answers : Statement → World e → Node → Type 0
  Answers s w n =
      (w' : World e) × (run_sql e s w ≡ (returned (selected (query s n.tables)), w'))
      × (view w' ≡ record n { tables = apply s n.tables })

  sql-Answers : (s : Statement) (w : World e) → Accepts s (q.tables w.db) → Answers s w (view w)
  unfolding run_sql
  sql-Answers s w h = (
    record w { db = (e.exec w.db s).2 },
    rw (q.open_succeeds w.db, q.exec_succeeds w.db s h, q.exec_rows w.db s h),
    rw (q.exec_tables w.db s h),
  )

  -- A statement that SQL accepts returns its rows, and changes the tables as it says.
  pub run_sql-Runs :
      (s : Statement) (n : Node)
      → Accepts s n.tables
      → Runs (run_sql e s) n (selected (query s n.tables)) (record n { tables = apply s n.tables })
  run_sql-Runs s n h = record {
    at = λ w v. subst (λ k. Accepts s k.tables → Answers s w k) v (sql-Answers s w) h;
  }

  pub sql_or_exit-Runs :
      (s : Statement) (n : Node)
      → Accepts s n.tables
      → Runs (sql_or_exit e s) n (query s n.tables) (record n { tables = apply s n.tables })
  unfolding sql_or_exit
  sql_or_exit-Runs s n h = Runs-bind _ (run_sql-Runs s n h) (Runs-pure _ _)
