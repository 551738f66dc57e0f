-- ===== src/Compile.antt =====
-- src/bpt/build/plan/compile_exec.cpp: which files of a build plan are compiled, what is done with
-- the result of each compilation, and what is recorded of them.
--
-- The command and the object file of a file are fields of its plan. A run of a compiler is a value:
-- what it printed, how long it took, and the file of dependencies that it wrote. Paths are compared
-- as texts.
pub mod Results
pub mod Rebuild
pub mod Samples
mod Tests
use mathlib.Core.Option
use bpt.Prelude.{
  ℕ, zero, suc, ◌+◌, Bool, true, false, not, ◌&&◌, Option, none, some, List, [], ◌∷◌, ◌++◌,
  if◌then◌else◌, length, drop, Bytes, codes, bytes_eq, is_prefix, ◌>>=◌,
}
use bpt.Text.{trim_view, starts_with}
use bpt.Shlex.{quote_command}
use bpt.Database.{FileSystem, Completed, Database}
use bpt.Deps.{
  FileDepsMode, none_mode, msvc, gnu, FileDepsInfo, PriorCompilation, parse_mkfile_deps_str,
  parse_msvc_output_for_deps, update_deps_info, get_prior_compilation,
}

pub record CompileFilePlan : Type 0 where
  pub source_path : Bytes
  pub enable_warnings : Bool
  pub syntax_only : Bool
  pub command : List Bytes
  pub object_file_path : Bytes

pub record CompileTicket : Type 0 where
  pub plan : CompileFilePlan
  pub needs_recompile : Bool
  pub prior_command : Option Completed

pub record Run : Type 0 where
  pub start_time : ℕ
  pub dur_ms : ℕ
  pub okay : Bool
  pub output : Bytes
  pub depfile : Option Bytes

-- The part of `build_env` that the compilations use.
pub record BuildEnv : Type 0 where
  pub deps_mode : FileDepsMode
  pub toolchain_hash : ℕ

abbrev pub is_nil {ℓ} : {A : Type ℓ} → List A → Bool
is_nil [] = true
is_nil (a ∷ rest) = false

abbrev pub is_some {ℓ} : {A : Type ℓ} → Option A → Bool
is_some none = false
is_some (some a) = true

-- The chain of tests of `mk_compile_ticket`, for the quoted command.
abbrev pub needs_recompile_of :
    FileSystem → CompileFilePlan → Bytes → Option PriorCompilation → Bool
needs_recompile_of fs plan quoted none = true
needs_recompile_of fs plan quoted (some rb_info) =
    if not (is_some (fs.last_write_time plan.object_file_path)) && not plan.syntax_only
    then true
    else if not (is_nil rb_info.newer_inputs)
    then true
    else not (bytes_eq quoted rb_info.previous_command.quoted_command)

unfoldable pub mk_compile_ticket : FileSystem → Database → CompileFilePlan → Option CompileTicket
mk_compile_ticket fs db plan = quote_command plan.command >>= λ quoted.
    let rb_info = get_prior_compilation fs db plan.object_file_path in
    some (record {
      plan = plan;
      needs_recompile = needs_recompile_of fs plan quoted rb_info;
      prior_command = Option.map (λ rb. rb.previous_command) rb_info;
    })

-- How `handle_compilation` ends: with the dependencies to record and the output that is shown, or by
-- an exception, or by a failed assertion.
pub data CompilationOutcome : Type 0 where
  compiled : Option FileDepsInfo → Option Bytes → CompilationOutcome
  compile_failure : Bytes → CompilationOutcome
  broken_invariant : CompilationOutcome

abbrev pub shown : Bytes → Option Bytes
shown output = if is_nil (trim_view output) then none else some output

-- The branch for a file that is up to date.
abbrev pub replay : CompileFilePlan → Option Completed → CompilationOutcome
replay plan none = broken_invariant
replay plan (some prior) = compiled none (if plan.enable_warnings then shown prior.output else none)

-- The file name that MSVC prints, and the end of its line.
abbrev pub erase_prefix : Bytes → Bytes → Bytes
erase_prefix key s = if starts_with s key then drop (length key) s else s

abbrev pub erase_file_name : Bytes → Bytes → Bytes
erase_file_name name output =
    if starts_with output name
    then erase_prefix (10 ∷ []) (erase_prefix (13 ∷ []) (drop (length name) output))
    else output

abbrev pub done_by : BuildEnv → Run → Bytes → Bytes → Completed
done_by env run quoted output = record {
  quoted_command = quoted;
  output = output;
  toolchain_hash = env.toolchain_hash;
  duration = run.dur_ms;
}

-- The dependencies that a Makefile lists, once its output is found to be the object file.
abbrev pub gnu_deps :
    CompileFilePlan → BuildEnv → Run → Bytes → Option Bytes → Option (Option FileDepsInfo)
gnu_deps plan env run quoted none = some none
gnu_deps plan env run quoted (some content) =
    let dep_info = parse_mkfile_deps_str content in
    if bytes_eq dep_info.output plan.object_file_path
    then some (
        some (record dep_info {
          command = done_by env run quoted run.output;
          compile_start_time = run.start_time;
        }))
    else none

abbrev pub leader : Bytes
leader = codes "Note: including file:"

abbrev pub msvc_deps :
    CompileFilePlan → BuildEnv → Run → Bytes → FileDepsInfo → Bytes → Option FileDepsInfo
msvc_deps plan env run quoted deps_info cleaned =
    if is_nil deps_info.inputs
    then none
    else some (record {
      output = plan.object_file_path;
      inputs = deps_info.inputs ++ plan.source_path ∷ [];
      command = done_by env run quoted cleaned;
      compile_start_time = run.start_time;
    })

-- The dependencies and the output that is left to show, by the mode of the toolchain.
abbrev pub collect :
    FileSystem
    → CompileFilePlan
    → BuildEnv
    → Run
    → Bytes
    → FileDepsMode
    → Option (Option FileDepsInfo × Bytes)
collect fs plan env run quoted none_mode = some (none, run.output)
collect fs plan env run quoted gnu =
    Option.map (λ deps. (deps, run.output)) (gnu_deps plan env run quoted run.depfile)
collect fs plan env run quoted msvc =
    Option.map (λ (deps_info, cleaned). (msvc_deps plan env run quoted deps_info cleaned, cleaned))
      (parse_msvc_output_for_deps fs run.output leader)

abbrev pub conclude :
    FileSystem → CompileFilePlan → Option (Option FileDepsInfo × Bytes) → CompilationOutcome
conclude fs plan none = broken_invariant
conclude fs plan (some (deps, output)) =
    compiled deps (shown (erase_file_name (fs.filename plan.source_path) output))

-- A compilation that ran, for its quoted command.
unfoldable pub run_compilation :
    FileSystem → CompileFilePlan → BuildEnv → Run → Bytes → CompilationOutcome
run_compilation fs plan env run quoted =
    if run.okay
    then conclude fs plan (collect fs plan env run quoted env.deps_mode)
    else compile_failure (erase_file_name (fs.filename plan.source_path) run.output)

unfoldable pub handle_compilation :
    FileSystem → BuildEnv → CompileTicket → Run → Option CompilationOutcome
unfolding run_compilation
handle_compilation fs env compile run = quote_command compile.plan.command >>= λ quoted. some (
    if compile.needs_recompile
    then run_compilation fs compile.plan env run quoted
    else replay compile.plan compile.prior_command)

abbrev pub new_deps : List CompilationOutcome → List FileDepsInfo
new_deps [] = []
new_deps (compiled (some deps) output ∷ outcomes) = deps ∷ new_deps outcomes
new_deps (compiled none output ∷ outcomes) = new_deps outcomes
new_deps (compile_failure output ∷ outcomes) = new_deps outcomes
new_deps (broken_invariant ∷ outcomes) = new_deps outcomes

-- The last loop of `compile_all`, in its transaction.
abbrev pub update_all : FileSystem → List FileDepsInfo → Database → Option Database
update_all fs [] db = some db
update_all fs (info ∷ infos) db = update_deps_info fs info db >>= λ db'. update_all fs infos db'
