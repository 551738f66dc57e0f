-- ===== src/Database/Laws.antt =====
-- The operations of the database, as changes of what is recorded for each output.
use bpt.Prelude.{
  ℕ, Option, none, some, List, [], ◌∷◌, ◌≡◌, ◌≢◌, inl, inr, ap, ◌∙◌, if◌then◌else◌, Bytes, bytes_eq,
  bytes_eq_iff, Bool-cases, Option-cases, All,
}
use bpt.Database.{
  FileSystem, normalize_path, Database, Dep, Compilation, file_id_of, record_file, record_dep,
  InputInfo, inputs_with, some_rows, inputs_of,
}
use bpt.Database.Files.{Grows, GrowsAt, Coherent, Recorded, record_file-Recorded, file_id_of_inj}
use bpt.Database.Rows.{
  IsFile, Known, replace_info, inputs_with-replace_dep, inputs_with-replace_dep_other,
  inputs_with-grows, inputs_with-new, Known-Grows, Known-replace_dep,
}

-- The cache agrees with the table of files, and the rows of the dependencies name its files.
pub record IsValid (db : Database) : Type 0 where
  pub coherent : Coherent db
  pub known : All (Known db.source_files) db.compile_deps
  pub rows : All (λ r. IsFile db.source_files r.file_id) db.compilations

abbrev rows_of : Option ℕ → List Bytes → List Dep → List InputInfo
rows_of none files deps = []
rows_of (some id) files deps = inputs_with files id deps

IsFile-Grows :
    (files files' : List Bytes) (rows : List Compilation)
    → Grows files files'
    → All (λ r. IsFile files r.file_id) rows
    → All (λ r. IsFile files' r.file_id) rows
IsFile-Grows files files' [] g h = tt
IsFile-Grows files files' (r ∷ rows) g ((q, e), h) =
    ((q, g q r.file_id e), IsFile-Grows files files' rows g h)

-- The inputs recorded for the output with this path.
abbrev pub inputs_at : Database → Bytes → List InputInfo
inputs_at db k = rows_of (file_id_of db.source_files k) db.source_files db.compile_deps

pub inputs_of-inputs_at :
    (fs : FileSystem) (file : Bytes) (db : Database)
    → inputs_of fs file db ≡ some_rows (inputs_at db (fs.weakly_canonical file))
unfolding inputs_of
inputs_of-inputs_at fs file db =
    elim (Option-cases (file_id_of db.source_files (fs.weakly_canonical file))) [
      | inl h ↦ rw (inputs_of, inputs_at, h)
      | inr (id, h) ↦ rw (inputs_of, inputs_at, h)
    ]

-- A table of files that has grown changes nothing that is recorded.
rows_of-Grows :
    (files files' : List Bytes) (k : Bytes) (deps : List Dep)
    → Grows files files'
    → GrowsAt files files'
    → All (Known files) deps
    → rows_of (file_id_of files' k) files' deps ≡ rows_of (file_id_of files k) files deps
rows_of-Grows files files' k deps g a all = elim (Option-cases (file_id_of files k)) [
  | inr (id, h) ↦ rw (h, g k id h) (inputs_with-grows files files' id deps a all)
  | inl h ↦ elim (Option-cases (file_id_of files' k)) [
    | inl h' ↦ rw (h, h')
    | inr (id, h') ↦ rw (h, h') (inputs_with-new files files' k id deps g h h' all)
  ]
]

pub Recorded-IsValid :
    (p : Bytes) (db : Database) (id : ℕ) (db' : Database)
    → IsValid db
    → Recorded p db id db'
    → IsValid db'
Recorded-IsValid p db id db' v r = record {
  coherent = r.coherent;
  known =
      rw (r.deps) (Known-Grows db.source_files db'.source_files db.compile_deps r.grows v.known);
  rows = rw (r.rows) (IsFile-Grows db.source_files db'.source_files db.compilations r.grows v.rows);
}

pub Recorded-inputs_at :
    (p : Bytes) (db : Database) (id : ℕ) (db' : Database) (k : Bytes)
    → IsValid db
    → Recorded p db id db'
    → inputs_at db' k ≡ inputs_at db k
Recorded-inputs_at p db id db' k v r =
    rw (r.deps)
      (rows_of-Grows db.source_files db'.source_files k db.compile_deps r.grows r.grows_at v.known)

-- A statement that changes the rows of one output, by what it does to their list.
pub changed_at :
    (files : List Bytes) (out k : Bytes) (id : ℕ) (deps deps' : List Dep)
    (f : List InputInfo → List InputInfo)
    → file_id_of files out ≡ some id
    → inputs_with files id deps' ≡ f (inputs_with files id deps)
    → ((other : ℕ) → other ≢ id → inputs_with files other deps' ≡ inputs_with files other deps)
    → rows_of (file_id_of files k) files deps' ≡ (
        if bytes_eq out k
        then f (rows_of (file_id_of files k) files deps)
        else rows_of (file_id_of files k) files deps)
changed_at files out k id deps deps' f h here there = elim (Bool-cases (bytes_eq out k)) [
  | inl same ↦ let e = (bytes_eq_iff out k).0 same in rw (same, ← e, h) here
  | inr other ↦ elim (Option-cases (file_id_of files k)) [
    | inl n ↦ rw (other, n)
    | inr (j, found) ↦
        rw (other, found)
          (there j (λ e.
            cc ((bytes_eq_iff out k).1 (file_id_of_inj files out k id h (found ∙ ap some e)))))
  ]
]

module _ (fs : FileSystem) (input output : Bytes) (mtime : ℕ) (db : Database) (v : IsValid db) where
  first :
      Recorded (normalize_path fs input) db (record_file fs input db).0 (record_file fs input db).1
  first = record_file-Recorded fs input db v.coherent

  abbrev db1 : Database
  db1 = (record_file fs input db).1

  second :
      Recorded
        (normalize_path fs output)
        db1
        (record_file fs output db1).0
        (record_file fs output db1).1
  second = record_file-Recorded fs output db1 first.coherent

  abbrev db2 : Database
  db2 = (record_file fs output db1).1

  valid1 : IsValid db1
  valid1 = Recorded-IsValid _ db _ db1 v first

  valid2 : IsValid db2
  valid2 = Recorded-IsValid _ db1 _ db2 valid1 second

  input_found :
      file_id_of db2.source_files (normalize_path fs input) ≡ some (record_file fs input db).0
  input_found = second.grows _ _ first.found

  pub record_dep-IsValid : IsValid (record_dep fs input output mtime db)
  unfolding record_dep
  record_dep-IsValid = record {
    coherent = second.coherent;
    known =
        Known-replace_dep db2.source_files _ _ mtime db2.compile_deps (_, input_found)
          (_, second.found) valid2.known;
    rows = valid2.rows;
  }

  -- `record_dep` sets the time of the input for its output, and changes no other output.
  pub record_dep-inputs_at :
      (k : Bytes)
      → inputs_at (record_dep fs input output mtime db) k ≡ (
          if bytes_eq (normalize_path fs output) k
          then replace_info (normalize_path fs input) mtime (inputs_at db k)
          else inputs_at db k)
  unfolding record_dep
  record_dep-inputs_at k =
      let same =
        Recorded-inputs_at _ db1 _ db2 k valid1 second ∙ Recorded-inputs_at _ db _ db1 k v first in
      rw (← same) (
        changed_at db2.source_files (normalize_path fs output) k (record_file fs output db1).0
          db2.compile_deps _ (replace_info (normalize_path fs input) mtime) second.found
          (inputs_with-replace_dep db2.source_files (normalize_path fs input) _ _ mtime
            db2.compile_deps input_found valid2.known)
          (λ other n.
            inputs_with-replace_dep_other db2.source_files _ other _ mtime db2.compile_deps n))
