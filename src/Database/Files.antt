-- ===== src/Database/Files.antt =====
-- The table of files: its identifiers stay what they are, and the cache agrees with it.
use bpt.Prelude.{
  ℕ, zero, suc, none, some, List, [], ◌∷◌, ◌++◌, ◌≡◌, inl, inr, refl, arith, length, get_elem?,
  Bytes, bytes_eq, bytes_eq_iff, Bool-cases, Option-cases,
}
use bpt.Database.{
  FileSystem, normalize_path, Database, file_id_of, cached, remember, insert_file, record_file,
}

-- Every file of the first table has the same identifier in the second one.
abbrev pub Grows : List Bytes → List Bytes → Type 0
Grows files files' =
    (p : Bytes) (i : ℕ) → file_id_of files p ≡ some i → file_id_of files' p ≡ some i

abbrev pub GrowsAt : List Bytes → List Bytes → Type 0
GrowsAt files files' =
    (i : ℕ) (p : Bytes) → get_elem? files i ≡ some p → get_elem? files' i ≡ some p

pub get_elem?-file_id_of :
    (files : List Bytes) (p : Bytes) (i : ℕ)
    → file_id_of files p ≡ some i
    → get_elem? files i ≡ some p
get_elem?-file_id_of [] p i h = cc
get_elem?-file_id_of (q ∷ files) p zero h =
    ground (arith, bytes_eq_iff q p, Option-cases (file_id_of files p))
get_elem?-file_id_of (q ∷ files) p (suc i) h =
    ground (arith, get_elem?-file_id_of files p i, Option-cases (file_id_of files p))

-- Two files have different identifiers.
pub file_id_of_inj :
    (files : List Bytes) (p q : Bytes) (i : ℕ)
    → file_id_of files p ≡ some i
    → file_id_of files q ≡ some i
    → p ≡ q
file_id_of_inj files p q i h k =
    cc (get_elem?-file_id_of files p i h, get_elem?-file_id_of files q i k)

Grows-more : (files : List Bytes) (p : Bytes) → Grows files (files ++ p ∷ [])
Grows-more [] p q i h = cc
Grows-more (r ∷ files) p q zero h = ground (arith, Option-cases (file_id_of files q))
Grows-more (r ∷ files) p q (suc i) h =
    ground (arith, Grows-more files p q i, Option-cases (file_id_of files q))

GrowsAt-more : (files : List Bytes) (p : Bytes) → GrowsAt files (files ++ p ∷ [])
GrowsAt-more [] p i q h = cc
GrowsAt-more (r ∷ files) p zero q h = h
GrowsAt-more (r ∷ files) p (suc i) q h = GrowsAt-more files p i q h

file_id_of_new :
    (files : List Bytes) (p : Bytes)
    → file_id_of files p ≡ none
    → file_id_of (files ++ p ∷ []) p ≡ some (length files)
file_id_of_new [] p h = ground (arith, bytes_eq_iff p p)
file_id_of_new (q ∷ files) p h =
    ground (arith, file_id_of_new files p, Option-cases (file_id_of files p))

-- The cache holds nothing but identifiers of the table.
abbrev pub Coherent : Database → Type 0
Coherent db =
    (p : Bytes) (i : ℕ) → cached db.cache p ≡ some i → file_id_of db.source_files p ≡ some i

-- What recording the file of a path does.
pub record Recorded (p : Bytes) (db : Database) (id : ℕ) (db' : Database) : Type 0 where
  pub found : file_id_of db'.source_files p ≡ some id
  pub coherent : Coherent db'
  pub grows : Grows db.source_files db'.source_files
  pub grows_at : GrowsAt db.source_files db'.source_files
  pub deps : db'.compile_deps ≡ db.compile_deps
  pub rows : db'.compilations ≡ db.compilations

remember-Coherent :
    (p : Bytes) (id : ℕ) (db : Database)
    → Coherent db
    → file_id_of db.source_files p ≡ some id
    → Coherent (remember p id db)
remember-Coherent p id db c h q i e = elim (Bool-cases (bytes_eq p q)) [
  | inl same ↦ ground (arith, (bytes_eq_iff p q).0 same)
  | inr other ↦ c q i (ground arith)
]

insert_file-Recorded :
    (p : Bytes) (db : Database)
    → Coherent db
    → Recorded p db (insert_file p db).0 (insert_file p db).1
insert_file-Recorded p db c = elim (Option-cases (file_id_of db.source_files p)) [
  | inr (id, h) ↦
      rw (insert_file, h)
        (record {
          found = h;
          coherent = remember-Coherent p id db c h;
          grows = λ q i e. e;
          grows_at = λ i q e. e;
          deps = refl;
          rows = refl;
        })
  | inl h ↦
      let new = file_id_of_new db.source_files p h in
      rw (insert_file, h)
        (record {
          found = new;
          coherent =
              remember-Coherent p (length db.source_files)
                (record db { source_files = db.source_files ++ p ∷ [] })
                (λ q i e. Grows-more db.source_files p q i (c q i e)) new;
          grows = Grows-more db.source_files p;
          grows_at = GrowsAt-more db.source_files p;
          deps = refl;
          rows = refl;
        })
]

-- When the cache of the database holds nothing but identifiers of its table, _record_file gives an
-- identifier that the table has for the normalized path, keeps the identifiers of all other files
-- and the other tables, and keeps the cache in agreement with the table.
pub record_file-Recorded :
    (fs : FileSystem) (path : Bytes) (db : Database)
    → Coherent db
    → Recorded (normalize_path fs path) db (record_file fs path db).0 (record_file fs path db).1
unfolding record_file
record_file-Recorded fs path db c = elim (Option-cases (cached db.cache (normalize_path fs path))) [
  | inr (id, h) ↦
      rw (record_file, h)
        (record {
          found = c (normalize_path fs path) id h;
          coherent = c;
          grows = λ q i e. e;
          grows_at = λ i q e. e;
          deps = refl;
          rows = refl;
        })
  | inl h ↦ rw (record_file, h) (insert_file-Recorded (normalize_path fs path) db c)
]
