-- ===== src/Database/Samples.antt =====
-- A file system and a database for the tests.
use mathlib.Core.Option
use bpt.Prelude.{ℕ, suc, Option, none, some, [], Bytes, codes, take, drop}
use bpt.Text.{rfind}
use bpt.Database.{FileSystem, Database}
use bpt.Database.Laws.{IsValid}

abbrev last_part : Bytes → Bytes → Option ℕ → Bytes
last_part whole p none = whole
last_part whole p (some n) = drop n p

abbrev parent_at : Bytes → Option ℕ → Bytes
parent_at p none = []
parent_at p (some n) = take n p

-- Relative paths with slashes, each its own canonical form.
abbrev pub sample_fs : (Bytes → Option ℕ) → FileSystem
sample_fs times = record {
  lexically_normal = λ p. p;
  filename = λ p. last_part p p (Option.map suc (rfind (codes "/") p));
  parent_path = λ p. parent_at p (rfind (codes "/") p);
  extension = λ p. last_part [] p (rfind (codes ".") p);
  weakly_canonical = λ p. p;
  last_write_time = times;
}

abbrev pub empty_db : Database
empty_db = record { source_files = []; compilations = []; compile_deps = []; cache = [] }

pub empty_db-IsValid : IsValid empty_db
empty_db-IsValid = record { coherent = λ p i h. cc; known = tt; rows = tt }
