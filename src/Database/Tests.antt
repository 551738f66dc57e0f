-- ===== src/Database/Tests.antt =====
use mathlib.Core.Option
use bpt.Prelude.{
  none, some, [], ℕ, ◌∷◌, ◌≡◌, ap, ◌⊎◌, inl, inr, refl, codes, length, arith, Bool-cases,
  bytes_eq_iff, bytes_eq, if◌then◌else◌,
}
use bpt.Database.{
  FileSystem, ended, still_going, normalize_in, normalize_path, record_file, average, Completed,
  Compilation, Database, record_compilation,
}
use bpt.Database.Commands.{row_at}
use bpt.Database.Mean.{record_all, Averages, record_all-Averages}
use bpt.Database.Files.{Recorded, record_file-Recorded}
use bpt.Database.Paths.{Stopped, IsRoot, Shortens, normalize_path-ends, normalize_path_root}
use bpt.Database.Samples.{sample_fs, empty_db, empty_db-IsValid}

abbrev files : FileSystem
files = sample_fs (λ p. none)

-- Every path is a name, but for one root and one folder.
abbrev names : FileSystem
names = record files {
  filename = λ p. if bytes_eq p (codes "/") then [] else if bytes_eq p (codes "a/") then [] else p;
  parent_path = λ p. if bytes_eq p (codes "a/") then codes "a" else p;
}

normalizes : normalize_path files (codes "a/b/") ≡ codes "a/b"
unfolding normalize_path normalize_in
normalizes = refl

names-Shortens : Shortens names
names-Shortens c p h = elim (Bool-cases (bytes_eq (c ∷ p) (codes "a/"))) [
  | inr other ↦ inr (rw (other))
  | inl same ↦
      let e = (bytes_eq_iff (c ∷ p) (codes "a/")).0 same in
      let short : length (names.parent_path (c ∷ p)) ≡ 1 = rw (same) in
      let long : length (c ∷ p) ≡ 2 = ap length e in inl (omega (arith, short, long))
]

abbrev took : ℕ → Completed
took duration = record {
  quoted_command = codes "cc";
  output = [];
  toolchain_hash = 7;
  duration = duration;
}

-- The first run counts although it is short, and the short one after it does not.
abbrev after_runs : Database
after_runs = record_all files (codes "a.o") (took 100 ∷ took 700 ∷ took 300 ∷ []) empty_db

averages :
    Option.map {B = ℕ × ℕ}
      (λ r. (r.done.duration, r.n_compilations))
      (row_at (record_compilation files (codes "a.o") (took 1000) after_runs) (codes "a.o"))
    ≡ some (600, 3)
unfolding record_compilation record_file normalize_path normalize_in average
averages = refl

record_all-Averages_example :
    (row row' : Compilation) × (row_at after_runs (normalize_path files (codes "a.o")) ≡ some row)
    × (row_at
          (record_compilation files (codes "a.o") (took 1000) after_runs)
          (normalize_path files (codes "a.o"))
        ≡ some row')
    × Averages (100 ∷ 700 ∷ []) row.done.duration 1000 row'
record_all-Averages_example =
    record_all-Averages files (codes "a.o") (took 100) (took 700 ∷ took 300 ∷ []) (took 1000)
      empty_db empty_db-IsValid refl (omega arith)

record_file-Recorded_example :
    Recorded
      (normalize_path files (codes "a/b/"))
      empty_db
      (record_file files (codes "a/b/") empty_db).0
      (record_file files (codes "a/b/") empty_db).1
record_file-Recorded_example =
    record_file-Recorded files (codes "a/b/") empty_db empty_db-IsValid.coherent

normalize_path-ends_example :
    ((normalize_in names 2 (codes "a/") ≡ ended (normalize_path names (codes "a/")))
      × Stopped names (normalize_path names (codes "a/")))
    ⊎ ((normalize_in names 2 (codes "a/") ≡ still_going (normalize_path names (codes "a/")))
        × IsRoot names (normalize_path names (codes "a/")))
normalize_path-ends_example = normalize_path-ends names (codes "a/") names-Shortens

normalize_path_root_example : normalize_in names 5 (codes "/") ≡ still_going (codes "/")
normalize_path_root_example = normalize_path_root names (codes "/") 47 [] 5 refl (refl, refl)
