-- ===== src/Compile/Results.antt =====
-- What `handle_compilation` gives to record.
use bpt.Prelude.{
  true, Option, none, some, ◌≡◌, ◌≢◌, inl, inr, ◌∙◌, Bytes, bytes_eq, bytes_eq_iff, Bool-cases,
  Option-cases, >>=-eq-some,
}
use bpt.Shlex.{quote_command}
use bpt.Database.{FileSystem, Completed}
use bpt.Deps.{
  FileDepsMode, none_mode, msvc, gnu, FileDepsInfo, parse_mkfile_deps_str,
  parse_msvc_output_for_deps,
}
use bpt.Compile.{
  CompileFilePlan, CompileTicket, Run, BuildEnv, compiled, is_nil, replay, collect, conclude,
  gnu_deps, msvc_deps, leader, run_compilation, handle_compilation,
}

-- The dependencies are those of this run: of the object file of the plan, with the command that was
-- run and the time at which it started.
pub record IsOf (plan : CompileFilePlan) (env : BuildEnv) (run : Run) (quoted : Bytes)
    (info : FileDepsInfo) : Type 0 where
  pub output : info.output ≡ plan.object_file_path
  pub command : info.command.quoted_command ≡ quoted
  pub toolchain : info.command.toolchain_hash ≡ env.toolchain_hash
  pub start : info.compile_start_time ≡ run.start_time

gnu_deps-IsOf :
    (plan : CompileFilePlan) (env : BuildEnv) (run : Run) (quoted : Bytes) (depfile : Option Bytes)
    (info : FileDepsInfo)
    → gnu_deps plan env run quoted depfile ≡ some (some info)
    → IsOf plan env run quoted info
gnu_deps-IsOf plan env run quoted none info h = cc
gnu_deps-IsOf plan env run quoted (some content) info h =
    elim (Bool-cases (bytes_eq (parse_mkfile_deps_str content).output plan.object_file_path)) [
      | inr other ↦ let h' = rw (other) at h in cc h'
      | inl same ↦
          let h' = rw (same) at h in
          record {
            output = cc (h', (bytes_eq_iff _ plan.object_file_path).0 same);
            command = cc (h');
            toolchain = cc (h');
            start = cc (h');
          }
    ]

msvc_deps-IsOf :
    (plan : CompileFilePlan) (env : BuildEnv) (run : Run) (quoted : Bytes)
    (deps info : FileDepsInfo) (cleaned : Bytes)
    → msvc_deps plan env run quoted deps cleaned ≡ some info
    → IsOf plan env run quoted info
msvc_deps-IsOf plan env run quoted deps info cleaned h = elim (Bool-cases (is_nil deps.inputs)) [
  | inl nil ↦ let h' = rw (nil) at h in cc h'
  | inr some_inputs ↦
      let h' = rw (some_inputs) at h in
      record { output = cc (h'); command = cc (h'); toolchain = cc (h'); start = cc (h') }
]

collect-IsOf :
    (fs : FileSystem) (plan : CompileFilePlan) (env : BuildEnv) (run : Run) (quoted : Bytes)
    (mode : FileDepsMode) (info : FileDepsInfo) (output : Bytes)
    → collect fs plan env run quoted mode ≡ some (some info, output)
    → IsOf plan env run quoted info
collect-IsOf fs plan env run quoted none_mode info output h = cc
collect-IsOf fs plan env run quoted gnu info output h =
    elim (Option-cases (gnu_deps plan env run quoted run.depfile)) [
      | inl n ↦ let h' = rw (n) at h in cc h'
      | inr (deps, g) ↦
          let h' = rw (g) at h in gnu_deps-IsOf plan env run quoted run.depfile info (g ∙ cc h')
    ]
collect-IsOf fs plan env run quoted msvc info output h =
    elim (Option-cases (parse_msvc_output_for_deps fs run.output leader)) [
      | inl n ↦ let h' = rw (n) at h in cc h'
      | inr (r, g) ↦ let h' = rw (g) at h in msvc_deps-IsOf plan env run quoted r.0 info r.1 (cc h')
    ]

replay_no_deps :
    (plan : CompileFilePlan) (prior : Option Completed) (info : FileDepsInfo)
    (output : Option Bytes)
    → replay plan prior ≢ compiled (some info) output
replay_no_deps plan none info output h = cc
replay_no_deps plan (some p) info output h = cc

conclude-IsOf :
    (fs : FileSystem) (plan : CompileFilePlan) (r : Option (Option FileDepsInfo × Bytes))
    (info : FileDepsInfo) (output : Option Bytes)
    → conclude fs plan r ≡ compiled (some info) output
    → (cleaned : Bytes) × (r ≡ some (some info, cleaned))
conclude-IsOf fs plan none info output h = cc
conclude-IsOf fs plan (some (deps, cleaned)) info output h = (cleaned, cc h)

-- When handle_compilation gives dependencies to record, the file needed a compilation, the run
-- succeeded, and the dependencies name the object file of the plan, the quoted command of the
-- plan, the hash of the toolchain and the start of the run.
pub handle_compilation-IsOf :
    (fs : FileSystem) (env : BuildEnv) (compile : CompileTicket) (run : Run) (info : FileDepsInfo)
    (output : Option Bytes)
    → handle_compilation fs env compile run ≡ some (compiled (some info) output)
    → (quoted : Bytes) × (quote_command compile.plan.command ≡ some quoted)
      × (run.okay ≡ true)
      × (compile.needs_recompile ≡ true)
      × IsOf compile.plan env run quoted info
unfolding handle_compilation run_compilation
handle_compilation-IsOf fs env compile run info output h =
    let (quoted, q, h1) = >>=-eq-some (quote_command compile.plan.command) _ h in
    elim (Bool-cases compile.needs_recompile) [
      | inr up_to_date ↦
          let h2 = rw (up_to_date) at h1 in
          absurd (replay_no_deps compile.plan compile.prior_command info output (cc h2))
      | inl recompile ↦ elim (Bool-cases run.okay) [
        | inr failed ↦ let h2 = rw (recompile, run_compilation, failed) at h1 in cc h2
        | inl okay ↦
            let h2 = rw (recompile, run_compilation, okay) at h1 in
            let (cleaned, c) = conclude-IsOf fs compile.plan _ info output (cc h2) in
            (
              quoted,
              q,
              okay,
              recompile,
              collect-IsOf fs compile.plan env run quoted env.deps_mode info cleaned c,
            )
      ]
    ]
