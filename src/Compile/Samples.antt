-- ===== src/Compile/Samples.antt =====
-- A compilation of one file with a header, for the tests.
use bpt.Prelude.{
  ℕ, Bool, true, false, Option, none, some, [], ◌∷◌, Bytes, codes, bytes_eq, if◌then◌else◌,
}
use bpt.Database.{FileSystem, Database}
use bpt.Database.Samples.{sample_fs}
use bpt.Deps.{gnu, FileDepsInfo}
use bpt.Compile.{CompileFilePlan, CompileTicket, Run, BuildEnv}

abbrev pub header_at : ℕ → Bytes → Option ℕ
header_at time p =
    if bytes_eq p (codes "a.h")
    then some time
    else if bytes_eq p (codes "a.c")
    then some 3
    else if bytes_eq p (codes "a.o")
    then some 12
    else none

abbrev pub fs_at : ℕ → FileSystem
fs_at time = sample_fs (header_at time)

abbrev pub plan : CompileFilePlan
plan = record {
  source_path = codes "a.c";
  enable_warnings = true;
  syntax_only = false;
  command = codes "cc" ∷ codes "a.c" ∷ [];
  object_file_path = codes "a.o";
}

abbrev pub ticket_for : Bool → CompileTicket
ticket_for needed = record { plan = plan; needs_recompile = needed; prior_command = none }

abbrev pub compiler_run : Run
compiler_run = record {
  start_time = 10;
  dur_ms = 700;
  okay = true;
  output = [];
  depfile = some (codes "a.o: a.c a.h");
}

abbrev pub env : BuildEnv
env = record { deps_mode = gnu; toolchain_hash = 1 }

abbrev pub info : FileDepsInfo
info = record {
  output = codes "a.o";
  inputs = codes "a.c" ∷ codes "a.h" ∷ [];
  command = record {
    quoted_command = codes "cc a.c";
    output = [];
    toolchain_hash = 1;
    duration = 700;
  };
  compile_start_time = 10;
}

-- What the database holds after the compilation with the header of time 5.
abbrev pub built : Database
built = record {
  source_files = codes "a.o" ∷ codes "a.c" ∷ codes "a.h" ∷ [];
  compilations = (record { file_id = 0; done = info.command; n_compilations = 1 }) ∷ [];
  compile_deps =
      (record { input_file_id = 1; output_file_id = 0; input_mtime = 3 })
      ∷ (record { input_file_id = 2; output_file_id = 0; input_mtime = 5 })
      ∷ [];
  cache = (codes "a.h", 2) ∷ (codes "a.c", 1) ∷ (codes "a.o", 0) ∷ [];
}

abbrev pub other_plan : CompileFilePlan
other_plan = record plan { command = codes "cc" ∷ codes "-O2" ∷ codes "a.c" ∷ [] }

abbrev pub later : CompileFilePlan → Bool → CompileTicket
later p needed = record { plan = p; needs_recompile = needed; prior_command = some info.command }
