-- ===== src/Compile/Tests.antt =====
use bpt.Prelude.{
  ℕ, ◌≤◌, min, true, false, none, some, ◌≡◌, ◌≢◌, inl, inr, refl, Bytes, codes, bytes_eq, arith,
  Elem,
}
use bpt.Compile.{compiled, handle_compilation, run_compilation, mk_compile_ticket}
use bpt.Text.{ends_with, starts_with, trim_view}
use bpt.Shlex.{quote_command, needs_quoting, split_shell_string}
use bpt.Database.{
  normalize_path, normalize_in, record_file, record_dep, record_compilation, forget_inputs_of,
  inputs_of, command_of,
}
use bpt.Database.Samples.{empty_db, empty_db-IsValid}
use bpt.Deps.{parse_mkfile_deps_str, update_deps_info, get_prior_compilation}
use bpt.Compile.Results.{IsOf, handle_compilation-IsOf}
use bpt.Compile.Rebuild.{changed_input_recompiles, changed_command_recompiles, unchanged_is_skipped}
use bpt.Compile.Samples.{fs_at, plan, other_plan, ticket_for, compiler_run, env, info, built, later}

compiles_with_depfile :
    handle_compilation (fs_at 5) env (ticket_for true) compiler_run
    ≡ some (compiled (some info) none)
unfolding handle_compilation run_compilation quote_command needs_quoting parse_mkfile_deps_str
    split_shell_string ends_with trim_view starts_with
compiles_with_depfile = refl

records_build : update_deps_info (fs_at 5) info empty_db ≡ some built
unfolding update_deps_info record_file record_dep record_compilation forget_inputs_of normalize_path
    normalize_in
records_build = refl

skips_unchanged : mk_compile_ticket (fs_at 5) built plan ≡ some (later plan false)
unfolding mk_compile_ticket get_prior_compilation inputs_of command_of quote_command needs_quoting
skips_unchanged = refl

compiles_changed_input : mk_compile_ticket (fs_at 6) built plan ≡ some (later plan true)
unfolding mk_compile_ticket get_prior_compilation inputs_of command_of quote_command needs_quoting
compiles_changed_input = refl

compiles_changed_command :
    mk_compile_ticket (fs_at 5) built other_plan ≡ some (later other_plan true)
unfolding mk_compile_ticket get_prior_compilation inputs_of command_of quote_command needs_quoting
compiles_changed_command = refl

canonical_object : codes "a.o" ≡ normalize_path (fs_at 5) (codes "a.o")
unfolding normalize_path normalize_in
canonical_object = refl

header_changed :
    (q : Bytes) (mtime : ℕ)
    → Elem q info.inputs
    → normalize_path (fs_at 5) q ≡ normalize_path (fs_at 5) (codes "a.h")
    → (fs_at 5).last_write_time q ≡ some mtime
    → (fs_at 6).last_write_time (normalize_path (fs_at 5) (codes "a.h")) ≢ some (min mtime 10)
unfolding normalize_path normalize_in
header_changed q mtime (inl e) same t eq =
    let at_c : some 3 ≡ some mtime = rw (e) at t in ground (arith)
header_changed q mtime (inr (inl e)) same t eq =
    let at_h : some 5 ≡ some mtime = rw (e) at t in ground (arith)
header_changed q mtime (inr (inr h)) same t eq = absurd h

not_syncheck :
    bytes_eq ((fs_at 6).extension (normalize_path (fs_at 5) (codes "a.h"))) (codes ".syncheck")
    ≡ false
unfolding normalize_path normalize_in
not_syncheck = refl

changed_input_recompiles_example : (later plan true).needs_recompile ≡ true
changed_input_recompiles_example =
    changed_input_recompiles (fs_at 5) (fs_at 6) env (ticket_for true) compiler_run info none
      empty_db built plan (later plan true) empty_db-IsValid compiles_with_depfile records_build
      canonical_object canonical_object refl compiles_changed_input (codes "a.h") (inr (inl refl))
      not_syncheck header_changed

quotes_differ : quote_command other_plan.command ≢ quote_command plan.command
unfolding quote_command needs_quoting
quotes_differ h = cc h

changed_command_recompiles_example : (later other_plan true).needs_recompile ≡ true
changed_command_recompiles_example =
    changed_command_recompiles (fs_at 5) (fs_at 5) env (ticket_for true) compiler_run info none
      empty_db built other_plan (later other_plan true) empty_db-IsValid compiles_with_depfile
      records_build canonical_object canonical_object refl compiles_changed_command (codes "a.h")
      (inr (inl refl)) quotes_differ

normal_source : normalize_path (fs_at 5) (codes "a.c") ≡ codes "a.c"
unfolding normalize_path normalize_in
normal_source = refl

normal_header : normalize_path (fs_at 5) (codes "a.h") ≡ codes "a.h"
unfolding normalize_path normalize_in
normal_header = refl

unchanged :
    (q : Bytes) (mtime : ℕ)
    → Elem q info.inputs
    → (fs_at 5).last_write_time q ≡ some mtime
    → (mtime ≤ 10) × ((fs_at 5).last_write_time (normalize_path (fs_at 5) q) ≡ some mtime)
unchanged q mtime (inl e) t =
    let at_c : some 3 ≡ some mtime = rw (e) at t in rw (e, normal_source) (ground (arith), at_c)
unchanged q mtime (inr (inl e)) t =
    let at_h : some 5 ≡ some mtime = rw (e) at t in rw (e, normal_header) (ground (arith), at_h)
unchanged q mtime (inr (inr h)) t = absurd h

unchanged_is_skipped_example : (later plan false).needs_recompile ≡ false
unchanged_is_skipped_example =
    unchanged_is_skipped (fs_at 5) (fs_at 5) env (ticket_for true) compiler_run info none empty_db
      built plan (later plan false) empty_db-IsValid compiles_with_depfile records_build
      canonical_object canonical_object refl skips_unchanged (codes "a.h") (inr (inl refl)) refl
      (inr refl) unchanged

handle_compilation-IsOf_example :
    (quoted : Bytes) × (quote_command plan.command ≡ some quoted)
    × (compiler_run.okay ≡ true)
    × ((ticket_for true).needs_recompile ≡ true)
    × IsOf plan env compiler_run quoted info
handle_compilation-IsOf_example =
    handle_compilation-IsOf (fs_at 5) env (ticket_for true) compiler_run info none
      compiles_with_depfile
