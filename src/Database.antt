-- ===== src/Database.antt =====
-- src/bpt/db/database.cpp: the build database, with the effect of each of its SQL statements on its
-- three tables. src/bpt/util/fs/path.cpp: normalize_path.
--
-- A row of bpt_source_files is its path; its file_id is its place in the list, since SQLite numbers
-- the rows and none is ever deleted. Paths are texts; what std::filesystem does with them is an
-- argument.
pub mod Files
pub mod Rows
pub mod Average
pub mod Laws
pub mod Commands
pub mod Mean
pub mod Paths
pub mod Samples
mod Tests
use mathlib.Core.Option
use bpt.Prelude.{
  ℕ, zero, suc, ◌+◌, ◌-◌, ◌/◌, min, Bool, true, false, not, ◌&&◌, Option, none, some, List, [], ◌∷◌,
  ◌++◌, ◌==◌, ltb, leb, if◌then◌else◌, length, get_elem?, Bytes, bytes_eq, ◌>>=◌,
}

-- The functions of std::filesystem::path, and those that look at the file system.
pub record FileSystem : Type 0 where
  pub lexically_normal : Bytes → Bytes
  pub filename : Bytes → Bytes
  pub parent_path : Bytes → Bytes
  pub extension : Bytes → Bytes
  pub weakly_canonical : Bytes → Bytes
  pub last_write_time : Bytes → Option ℕ

-- Where the `while` of `normalize_path` is after a number of rounds.
pub data Rounds : Type 0 where
  ended : Bytes → Rounds
  still_going : Bytes → Rounds

abbrev pub path_of : Rounds → Bytes
path_of (ended p) = p
path_of (still_going p) = p

pub drop_slash : FileSystem → ℕ → Bytes → Rounds
drop_slash fs rounds [] = ended []
drop_slash fs zero (c ∷ p) = elim (fs.filename (c ∷ p)) [
  | [] ↦ still_going (c ∷ p)
  | d ∷ name ↦ ended (c ∷ p)
]
drop_slash fs (suc rounds) (c ∷ p) = elim (fs.filename (c ∷ p)) [
  | [] ↦ drop_slash fs rounds (fs.parent_path (c ∷ p))
  | d ∷ name ↦ ended (c ∷ p)
]

unfoldable pub normalize_in : FileSystem → ℕ → Bytes → Rounds
unfolding drop_slash
normalize_in fs rounds p = drop_slash fs rounds (fs.lexically_normal p)

-- The rounds suffice but at a root, where the source does not return: there this is the root.
unfoldable pub normalize_path : FileSystem → Bytes → Bytes
unfolding normalize_in
normalize_path fs p = path_of (normalize_in fs (length (fs.lexically_normal p)) p)

-- `completed_compilation`.
pub record Completed : Type 0 where
  pub quoted_command : Bytes
  pub output : Bytes
  pub toolchain_hash : ℕ
  pub duration : ℕ

-- A row of bpt_compilations; its `duration` is avg_duration.
pub record Compilation : Type 0 where
  pub file_id : ℕ
  pub done : Completed
  pub n_compilations : ℕ

-- A row of bpt_compile_deps.
pub record Dep : Type 0 where
  pub input_file_id : ℕ
  pub output_file_id : ℕ
  pub input_mtime : ℕ

-- The tables, and `_stored_file_ids_cache`.
pub record Database : Type 0 where
  pub source_files : List Bytes
  pub compilations : List Compilation
  pub compile_deps : List Dep
  pub cache : List (Bytes × ℕ)

-- SELECT file_id FROM bpt_source_files WHERE path = ?
abbrev pub file_id_of : List Bytes → Bytes → Option ℕ
file_id_of [] p = none
file_id_of (q ∷ files) p = if bytes_eq q p then some 0 else Option.map suc (file_id_of files p)

-- std::map::find.
abbrev pub cached : List (Bytes × ℕ) → Bytes → Option ℕ
cached [] p = none
cached ((q, id) ∷ cache) p = if bytes_eq q p then some id else cached cache p

abbrev pub remember : Bytes → ℕ → Database → Database
remember p id db = record db { cache = (p, id) ∷ db.cache }

-- INSERT … ON CONFLICT (path) DO UPDATE SET path=path RETURNING file_id
abbrev pub insert_file : Bytes → Database → ℕ × Database
insert_file p db = elim (file_id_of db.source_files p) [
  | some id ↦ (id, remember p id db)
  | none ↦ (
    length db.source_files,
    remember p (length db.source_files) (record db { source_files = db.source_files ++ p ∷ [] }),
  )
]

unfoldable pub record_file : FileSystem → Bytes → Database → ℕ × Database
record_file fs path db = elim (cached db.cache (normalize_path fs path)) [
  | some id ↦ (id, db)
  | none ↦ insert_file (normalize_path fs path) db
]

-- UNIQUE(input_file_id, output_file_id) with INSERT OR REPLACE.
abbrev pub same_dep : ℕ → ℕ → Dep → Bool
same_dep in_id out_id d = d.input_file_id == in_id && d.output_file_id == out_id

abbrev pub replace_dep : ℕ → ℕ → ℕ → List Dep → List Dep
replace_dep in_id out_id mtime [] =
    (record { input_file_id = in_id; output_file_id = out_id; input_mtime = mtime }) ∷ []
replace_dep in_id out_id mtime (d ∷ deps) =
    let rest = replace_dep in_id out_id mtime deps in
    if same_dep in_id out_id d then rest else d ∷ rest

unfoldable pub record_dep : FileSystem → Bytes → Bytes → ℕ → Database → Database
unfolding record_file
record_dep fs input output input_mtime db =
    let (in_id, db1) = record_file fs input db in
    let (out_id, db2) = record_file fs output db1 in
    record db2 { compile_deps = replace_dep in_id out_id input_mtime db2.compile_deps }

-- avg_duration + ((:duration - avg_duration) / min(10, n_compilations + 1)), where the division of
-- integers cuts towards zero.
unfoldable pub average : ℕ → ℕ → ℕ → ℕ
average avg n duration =
    if leb avg duration
    then avg + (duration - avg) / min 10 (n + 1)
    else avg - (avg - duration) / min 10 (n + 1)

-- DO UPDATE SET: short compilations leave the statistics alone.
abbrev pub update_row : Completed → Compilation → Compilation
update_row cmd row =
    if ltb cmd.duration 500
    then record row { done = record cmd { duration = row.done.duration } }
    else record row {
      done = record cmd { duration = average row.done.duration row.n_compilations cmd.duration };
      n_compilations = min 10 (row.n_compilations + 1);
    }

-- INSERT … ON CONFLICT(file_id) DO UPDATE
abbrev pub upsert : ℕ → Completed → List Compilation → List Compilation
upsert id cmd [] = (record { file_id = id; done = cmd; n_compilations = 1 }) ∷ []
upsert id cmd (row ∷ rows) =
    let rest = upsert id cmd rows in
    if row.file_id == id then update_row cmd row ∷ rows else row ∷ rest

unfoldable pub record_compilation : FileSystem → Bytes → Completed → Database → Database
unfolding record_file average
record_compilation fs file cmd db =
    let (id, db1) = record_file fs file db in
    record db1 { compilations = upsert id cmd db1.compilations }

abbrev pub without_output : ℕ → List Dep → List Dep
without_output id [] = []
without_output id (d ∷ deps) =
    let rest = without_output id deps in if d.output_file_id == id then rest else d ∷ rest

unfoldable pub forget_inputs_of : FileSystem → Bytes → Database → Database
forget_inputs_of fs file db = elim (file_id_of db.source_files (fs.weakly_canonical file)) [
  | none ↦ db
  | some id ↦ record db { compile_deps = without_output id db.compile_deps }
]

-- `input_file_info`.
pub record InputInfo : Type 0 where
  pub path : Bytes
  pub prev_mtime : ℕ

abbrev pub join_input : Option Bytes → ℕ → List InputInfo → List InputInfo
join_input none mtime rest = rest
join_input (some p) mtime rest = (record { path = p; prev_mtime = mtime }) ∷ rest

-- The rows for an output, join_input with the paths of their inputs.
abbrev pub inputs_with : List Bytes → ℕ → List Dep → List InputInfo
inputs_with files id [] = []
inputs_with files id (d ∷ deps) =
    let rest = inputs_with files id deps in
    if d.output_file_id == id
    then join_input (get_elem? files d.input_file_id) d.input_mtime rest
    else rest

abbrev pub some_rows : List InputInfo → Option (List InputInfo)
some_rows [] = none
some_rows (i ∷ infos) = some (i ∷ infos)

unfoldable pub inputs_of : FileSystem → Bytes → Database → Option (List InputInfo)
inputs_of fs file db = file_id_of db.source_files (fs.weakly_canonical file) >>= λ id.
    some_rows (inputs_with db.source_files id db.compile_deps)

abbrev pub compilation_with : ℕ → List Compilation → Option Completed
compilation_with id [] = none
compilation_with id (row ∷ rows) =
    let rest = compilation_with id rows in if row.file_id == id then some row.done else rest

unfoldable pub command_of : FileSystem → Bytes → Database → Option Completed
command_of fs file db = file_id_of db.source_files (fs.weakly_canonical file) >>= λ id.
    compilation_with id db.compilations
