-- ===== src/Database/Commands.antt =====
-- The commands that are recorded, and what the operations for inputs and commands leave alone.
use mathlib.Core.Option
use bpt.Prelude.{
  ℕ, Option, none, some, List, [], ◌∷◌, ◌≡◌, ◌≢◌, inl, inr, refl, sym, ap, ◌∙◌, arith,
  if◌then◌else◌, ◌==◌, ==_iff, Bytes, bytes_eq, bytes_eq_iff, Bool-cases, Option-cases, All,
}
use bpt.Database.{
  FileSystem, normalize_path, Database, Completed, Compilation, file_id_of, record_file, record_dep,
  update_row, upsert, record_compilation, without_output, forget_inputs_of, compilation_with,
  command_of,
}
use bpt.Database.Files.{Grows, Recorded, record_file-Recorded, file_id_of_inj}
use bpt.Database.Rows.{
  IsFile, Known-without_output, inputs_with-without_output, inputs_with-without_output_other,
}
use bpt.Database.Laws.{IsValid, inputs_at, Recorded-IsValid, Recorded-inputs_at, changed_at}

abbrev pub row_with : ℕ → List Compilation → Option Compilation
row_with id [] = none
row_with id (row ∷ rows) =
    let rest = row_with id rows in if row.file_id == id then some row else rest

abbrev row_of : Option ℕ → List Compilation → Option Compilation
row_of none rows = none
row_of (some id) rows = row_with id rows

-- The row recorded for the output with this path.
abbrev pub row_at : Database → Bytes → Option Compilation
row_at db k = row_of (file_id_of db.source_files k) db.compilations

compilation_with-row_with :
    (id : ℕ) (rows : List Compilation)
    → compilation_with id rows ≡ Option.map (λ r. r.done) (row_with id rows)
compilation_with-row_with id [] = refl
compilation_with-row_with id (row ∷ rows) = ground (arith, compilation_with-row_with id rows)

pub command_of-row_at :
    (fs : FileSystem) (file : Bytes) (db : Database)
    → command_of fs file db ≡ Option.map (λ r. r.done) (row_at db (fs.weakly_canonical file))
unfolding command_of
command_of-row_at fs file db =
    elim (Option-cases (file_id_of db.source_files (fs.weakly_canonical file))) [
      | inl h ↦ rw (command_of, row_at, h)
      | inr (id, h) ↦ rw (command_of, row_at, h) (compilation_with-row_with id db.compilations)
    ]

row_with-new :
    (files files' : List Bytes) (k : Bytes) (id : ℕ) (rows : List Compilation)
    → Grows files files'
    → file_id_of files k ≡ none
    → file_id_of files' k ≡ some id
    → All (λ r. IsFile files r.file_id) rows
    → row_with id rows ≡ none
row_with-new files files' k id [] g n h all = refl
row_with-new files files' k id (r ∷ rows) g n h ((o, f), all) =
    elim (Bool-cases (r.file_id == id)) [
      | inr other ↦ rw (row_with, other) (row_with-new files files' k id rows g n h all)
      | inl same ↦
          let e : file_id_of files' o ≡ some id =
            g o r.file_id f ∙ ap some ((==_iff r.file_id id).0 same) in
          let eq = file_id_of_inj files' o k id e h in cc (ap (file_id_of files) eq)
    ]

pub Recorded-row_at :
    (p : Bytes) (db : Database) (id : ℕ) (db' : Database) (k : Bytes)
    → IsValid db
    → Recorded p db id db'
    → row_at db' k ≡ row_at db k
Recorded-row_at p db id db' k v r = elim (Option-cases (file_id_of db.source_files k)) [
  | inr (j, h) ↦ rw (r.rows, h, r.grows k j h)
  | inl h ↦ elim (Option-cases (file_id_of db'.source_files k)) [
    | inl h' ↦ rw (h, h')
    | inr (j, h') ↦
        rw (h, h', r.rows)
          (row_with-new db.source_files db'.source_files k j db.compilations r.grows h h' v.rows)
  ]
]

-- The row after a compilation: a new one, or the old one updated.
abbrev pub upserted : ℕ → Completed → Option Compilation → Compilation
upserted id cmd none = record { file_id = id; done = cmd; n_compilations = 1 }
upserted id cmd (some row) = update_row cmd row

file_id-update_row :
    (cmd : Completed) (row : Compilation) → (update_row cmd row).file_id ≡ row.file_id
file_id-update_row cmd row = ground arith

row_with-upsert :
    (id : ℕ) (cmd : Completed) (rows : List Compilation)
    → row_with id (upsert id cmd rows) ≡ some (upserted id cmd (row_with id rows))
row_with-upsert id cmd [] = ground arith
row_with-upsert id cmd (row ∷ rows) = elim (Bool-cases (row.file_id == id)) [
  | inl same ↦ rw (upsert, same, row_with, file_id-update_row cmd row, same)
  | inr other ↦ rw (upsert, other, row_with, other) (row_with-upsert id cmd rows)
]

row_with-upsert_other :
    (id other : ℕ) (cmd : Completed) (rows : List Compilation)
    → other ≢ id
    → row_with other (upsert id cmd rows) ≡ row_with other rows
row_with-upsert_other id other cmd [] n = ground arith
row_with-upsert_other id other cmd (row ∷ rows) n =
    ground (arith, file_id-update_row cmd row, row_with-upsert_other id other cmd rows n)

-- `record_compilation` makes or updates the row of its file, and leaves every other row.
pub record_compilation-row_at :
    (fs : FileSystem) (file : Bytes) (cmd : Completed) (db : Database) (k : Bytes)
    → IsValid db
    → row_at (record_compilation fs file cmd db) k ≡ (
        if bytes_eq (normalize_path fs file) k
        then some (upserted (record_file fs file db).0 cmd (row_at db k))
        else row_at db k)
unfolding record_compilation
record_compilation-row_at fs file cmd db k v =
    let r = record_file-Recorded fs file db v.coherent in
    let same =
      Recorded-row_at (normalize_path fs file) db (record_file fs file db).0
        (record_file fs file db).1 k v r in
    let db1 = (record_file fs file db).1 in
    let id = (record_file fs file db).0 in
    elim (Bool-cases (bytes_eq (normalize_path fs file) k)) [
      | inl here ↦
          let e = (bytes_eq_iff (normalize_path fs file) k).0 here in
          let found : file_id_of db1.source_files k ≡ some id =
            ap (file_id_of db1.source_files) (sym e) ∙ r.found in
          rw (here, ← same, row_at, found) (row_with-upsert id cmd db1.compilations)
      | inr there ↦ elim (Option-cases (file_id_of db1.source_files k)) [
        | inl n ↦ rw (there, ← same, row_at, n)
        | inr (j, found) ↦
            rw (there, ← same, row_at, found)
              (row_with-upsert_other id j cmd db1.compilations (λ e. cc (
                (bytes_eq_iff (normalize_path fs file) k).1 (
                  file_id_of_inj db1.source_files (normalize_path fs file) k id r.found
                    (found ∙ ap some e)))))
      ]
    ]

IsFile-upsert :
    (files : List Bytes) (id : ℕ) (cmd : Completed) (rows : List Compilation)
    → IsFile files id
    → All (λ r. IsFile files r.file_id) rows
    → All (λ r. IsFile files r.file_id) (upsert id cmd rows)
IsFile-upsert files id cmd [] h k = (h, tt)
IsFile-upsert files id cmd (row ∷ rows) h (e, k) = elim (Bool-cases (row.file_id == id)) [
  | inl same ↦ rw (upsert, same) (rw (file_id-update_row cmd row) e, k)
  | inr other ↦ rw (upsert, other) (e, IsFile-upsert files id cmd rows h k)
]

pub record_compilation-IsValid :
    (fs : FileSystem) (file : Bytes) (cmd : Completed) (db : Database)
    → IsValid db
    → IsValid (record_compilation fs file cmd db)
unfolding record_compilation
record_compilation-IsValid fs file cmd db v =
    let r = record_file-Recorded fs file db v.coherent in
    let v1 =
      Recorded-IsValid (normalize_path fs file) db (record_file fs file db).0
        (record_file fs file db).1 v r in
    let db1 = (record_file fs file db).1 in
    record {
      coherent = v1.coherent;
      known = v1.known;
      rows =
          IsFile-upsert db1.source_files (record_file fs file db).0 cmd db1.compilations
            (_, r.found) v1.rows;
    }

-- A command that is recorded changes no inputs.
pub record_compilation-inputs_at :
    (fs : FileSystem) (file : Bytes) (cmd : Completed) (db : Database) (k : Bytes)
    → IsValid db
    → inputs_at (record_compilation fs file cmd db) k ≡ inputs_at db k
unfolding record_compilation
record_compilation-inputs_at fs file cmd db k v =
    Recorded-inputs_at (normalize_path fs file) db _ (record_file fs file db).1 k v
      (record_file-Recorded fs file db v.coherent)

-- An input that is recorded changes no commands.
pub record_dep-row_at :
    (fs : FileSystem) (input output : Bytes) (mtime : ℕ) (db : Database) (k : Bytes)
    → IsValid db
    → row_at (record_dep fs input output mtime db) k ≡ row_at db k
unfolding record_dep
record_dep-row_at fs input output mtime db k v =
    let r1 = record_file-Recorded fs input db v.coherent in
    let db1 = (record_file fs input db).1 in
    let v1 = Recorded-IsValid (normalize_path fs input) db (record_file fs input db).0 db1 v r1 in
    let r2 = record_file-Recorded fs output db1 v1.coherent in
    Recorded-row_at _ db1 _ (record_file fs output db1).1 k v1 r2
    ∙ Recorded-row_at _ db _ db1 k v r1

pub forget_inputs_of-IsValid :
    (fs : FileSystem) (file : Bytes) (db : Database)
    → IsValid db
    → IsValid (forget_inputs_of fs file db)
unfolding forget_inputs_of
forget_inputs_of-IsValid fs file db v =
    elim (Option-cases (file_id_of db.source_files (fs.weakly_canonical file))) [
      | inl h ↦ rw (forget_inputs_of, h) v
      | inr (id, h) ↦
          rw (forget_inputs_of, h)
            (record {
              coherent = v.coherent;
              known = Known-without_output db.source_files id db.compile_deps v.known;
              rows = v.rows;
            })
    ]

pub forget_inputs_of-row_at :
    (fs : FileSystem) (file : Bytes) (db : Database) (k : Bytes)
    → row_at (forget_inputs_of fs file db) k ≡ row_at db k
unfolding forget_inputs_of
forget_inputs_of-row_at fs file db k =
    elim (Option-cases (file_id_of db.source_files (fs.weakly_canonical file))) [
      | inl h ↦ rw (forget_inputs_of, h)
      | inr (id, h) ↦ rw (forget_inputs_of, h)
    ]

-- `forget_inputs_of` leaves no input of its file, and changes no other file's.
pub forget_inputs_of-inputs_at :
    (fs : FileSystem) (file : Bytes) (db : Database) (k : Bytes)
    → inputs_at (forget_inputs_of fs file db) k
      ≡ (if bytes_eq (fs.weakly_canonical file) k then [] else inputs_at db k)
unfolding forget_inputs_of
forget_inputs_of-inputs_at fs file db k =
    elim (Option-cases (file_id_of db.source_files (fs.weakly_canonical file))) [
      | inl h ↦ elim (Bool-cases (bytes_eq (fs.weakly_canonical file) k)) [
        | inl same ↦
            let e = (bytes_eq_iff (fs.weakly_canonical file) k).0 same in
            rw (forget_inputs_of, h, same, inputs_at, ← e, h)
        | inr other ↦ rw (forget_inputs_of, h, other)
      ]
      | inr (id, h) ↦
          rw (forget_inputs_of, h, inputs_at)
            (changed_at db.source_files (fs.weakly_canonical file) k id db.compile_deps
              (without_output id db.compile_deps) (λ infos. []) h
              (inputs_with-without_output db.source_files id db.compile_deps)
              (λ other n.
                inputs_with-without_output_other db.source_files other id db.compile_deps n))
    ]
