-- ===== src/Compile/Rebuild.antt =====
-- Which files the next build compiles again, after a build has recorded its dependencies.
use bpt.Prelude.{
  ℕ, ◌≤◌, min, true, false, Option, some, List, [], ◌∷◌, ◌≡◌, ◌≢◌, ◌⊎◌, inl, refl, sym, ap, ◌∙◌,
  arith, Bytes, codes, bytes_eq, bytes_eq_iff, Elem, >>=-eq-some,
}
use bpt.Shlex.{quote_command}
use bpt.Database.{FileSystem, normalize_path, Database}
use bpt.Database.Laws.{IsValid}
use bpt.Deps.{FileDepsInfo, PriorCompilation, update_deps_info, get_prior_compilation}
use bpt.Deps.Prior.{
  IsCanonical, get_prior_compilation-update_deps_info, changed_input_reported,
  reported_input_changed,
}
use bpt.Compile.{
  handle_compilation, compiled, CompileFilePlan, CompileTicket, Run, BuildEnv, is_nil, is_some,
  needs_recompile_of, mk_compile_ticket,
}
use bpt.Compile.Results.{handle_compilation-IsOf}

ticket_of :
    (fs : FileSystem) (db : Database) (plan : CompileFilePlan) (ticket : CompileTicket)
    → mk_compile_ticket fs db plan ≡ some ticket
    → (quoted : Bytes) × (quote_command plan.command ≡ some quoted)
      × (ticket.needs_recompile
          ≡ needs_recompile_of fs plan quoted (get_prior_compilation fs db plan.object_file_path))
unfolding mk_compile_ticket
ticket_of fs db plan ticket h =
    let (quoted, q, h1) = >>=-eq-some (quote_command plan.command) _ h in (quoted, q, cc h1)

Elem-is_nil : {A : Type 0} (p : A) (ps : List A) → Elem p ps → is_nil ps ≡ false
Elem-is_nil p [] m = absurd m
Elem-is_nil p (q ∷ ps) m = refl

newer_input_recompiles :
    (fs : FileSystem) (plan : CompileFilePlan) (quoted : Bytes) (prior : PriorCompilation)
    (p : Bytes)
    → Elem p prior.newer_inputs
    → needs_recompile_of fs plan quoted (some prior) ≡ true
newer_input_recompiles fs plan quoted prior p m = ground (arith, Elem-is_nil p prior.newer_inputs m)

no_Elem-is_nil : {A : Type 0} (ps : List A) → ((p : A) → ¬ Elem p ps) → is_nil ps ≡ true
no_Elem-is_nil [] n = refl
no_Elem-is_nil (p ∷ ps) n = absurd (n p (inl refl))

other_command_recompiles :
    (fs : FileSystem) (plan : CompileFilePlan) (quoted : Bytes) (prior : PriorCompilation)
    → quoted ≢ prior.previous_command.quoted_command
    → needs_recompile_of fs plan quoted (some prior) ≡ true
other_command_recompiles fs plan quoted prior n =
    ground (arith, bytes_eq_iff quoted prior.previous_command.quoted_command)

up_to_date_skips :
    (fs : FileSystem) (plan : CompileFilePlan) (quoted : Bytes) (prior : PriorCompilation)
    → (plan.syntax_only ≡ true) ⊎ (is_some (fs.last_write_time plan.object_file_path) ≡ true)
    → is_nil prior.newer_inputs ≡ true
    → quoted ≡ prior.previous_command.quoted_command
    → needs_recompile_of fs plan quoted (some prior) ≡ false
up_to_date_skips fs plan quoted prior o n q =
    ground (arith, bytes_eq_iff quoted prior.previous_command.quoted_command)

-- A build at the file system `fs` compiles a file and records its dependencies; a later build makes
-- a ticket for the plan `next` of the same object file, at the file system `fs'`.
module _ (fs fs' : FileSystem) (env : BuildEnv) (compile : CompileTicket) (run : Run)
    (info : FileDepsInfo) (output : Option Bytes) (db db' : Database) (next : CompileFilePlan)
    (ticket : CompileTicket) (v : IsValid db)
    (compiled_info : handle_compilation fs env compile run ≡ some (compiled (some info) output))
    (recorded : update_deps_info fs info db ≡ some db')
    (c : fs.weakly_canonical compile.plan.object_file_path
      ≡ normalize_path fs compile.plan.object_file_path)
    (c' : fs'.weakly_canonical compile.plan.object_file_path
      ≡ normalize_path fs compile.plan.object_file_path)
    (same_object : next.object_file_path ≡ compile.plan.object_file_path)
    (made : mk_compile_ticket fs' db' next ≡ some ticket) where
  object : info.output ≡ compile.plan.object_file_path
  object =
      let (quoted, q, okay, needed, is) =
        handle_compilation-IsOf fs env compile run info output compiled_info in
      is.output

  quoted_info : quote_command compile.plan.command ≡ some info.command.quoted_command
  quoted_info =
      let (quoted, q, okay, needed, is) =
        handle_compilation-IsOf fs env compile run info output compiled_info in
      q ∙ ap some (sym is.command)

  canonical : IsCanonical fs info db
  canonical = rw (object) c

  canonical' : fs'.weakly_canonical info.output ≡ normalize_path fs info.output
  canonical' = rw (object) c'

  at_output : next.object_file_path ≡ info.output
  at_output = same_object ∙ sym object

  -- With a prior compilation, the ticket is what the tests say of it.
  decided :
      (prior : PriorCompilation)
      → get_prior_compilation fs' db' info.output ≡ some prior
      → (quoted : Bytes) × (quote_command next.command ≡ some quoted)
        × (ticket.needs_recompile ≡ needs_recompile_of fs' next quoted (some prior))
  decided prior g =
      let (quoted, q, e) = ticket_of fs' db' next ticket made in
      (
        quoted,
        q,
        e
            ∙ ap (needs_recompile_of fs' next quoted)
                (ap (get_prior_compilation fs' db') at_output ∙ g),
      )

  -- When a compilation gave dependencies that were recorded in a well-formed database, and one of
  -- its inputs that is not a .syncheck file does not have, in the later file system, the earlier
  -- of the time it had then and the start of that compilation, for each input with the same
  -- normalized path, then the ticket that the next build makes for the same object file has
  -- needs_recompile. At both times the weakly canonical path of the object file is its normalized
  -- path.
  pub changed_input_recompiles :
      (inp : Bytes)
      → Elem inp info.inputs
      → bytes_eq (fs'.extension (normalize_path fs inp)) (codes ".syncheck") ≡ false
      → ((q : Bytes) (mtime : ℕ)
          → Elem q info.inputs
          → normalize_path fs q ≡ normalize_path fs inp
          → fs.last_write_time q ≡ some mtime
          → fs'.last_write_time (normalize_path fs inp) ≢ some (min mtime info.compile_start_time))
      → ticket.needs_recompile ≡ true
  changed_input_recompiles inp m x changed =
      let (prior, g, same) =
        get_prior_compilation-update_deps_info fs info db fs' db' v canonical canonical' recorded
          inp m in
      let reported =
        changed_input_reported fs info db fs' db' v canonical canonical' recorded prior inp g m x
          changed in
      let (quoted, q, e) = decided prior g in
      e ∙ newer_input_recompiles fs' next quoted prior (normalize_path fs inp) reported

  -- When a compilation with at least one input was recorded as in changed_input_recompiles and the
  -- quoted command of the next plan is another one, then the next ticket has needs_recompile.
  pub changed_command_recompiles :
      (inp : Bytes)
      → Elem inp info.inputs
      → quote_command next.command ≢ quote_command compile.plan.command
      → ticket.needs_recompile ≡ true
  changed_command_recompiles inp m changed =
      let (prior, g, same) =
        get_prior_compilation-update_deps_info fs info db fs' db' v canonical canonical' recorded
          inp m in
      let (quoted, q, e) = decided prior g in
      e
      ∙ other_command_recompiles fs' next quoted prior
          (λ eq. changed (q ∙ ap some (eq ∙ same) ∙ sym quoted_info))

  -- When a compilation with at least one input was recorded as in changed_input_recompiles, the
  -- quoted command is the same, the object file exists or only the syntax is checked, and every
  -- input had a time not later than the start of the compilation and has it still, then the next
  -- ticket for that object file does not have needs_recompile.
  pub unchanged_is_skipped :
      (inp : Bytes)
      → Elem inp info.inputs
      → quote_command next.command ≡ quote_command compile.plan.command
      → (next.syntax_only ≡ true) ⊎ (is_some (fs'.last_write_time next.object_file_path) ≡ true)
      → ((q : Bytes) (mtime : ℕ)
          → Elem q info.inputs
          → fs.last_write_time q ≡ some mtime
          → (mtime ≤ info.compile_start_time)
            × (fs'.last_write_time (normalize_path fs q) ≡ some mtime))
      → ticket.needs_recompile ≡ false
  unchanged_is_skipped inp m command exists unchanged =
      let (prior, g, same) =
        get_prior_compilation-update_deps_info fs info db fs' db' v canonical canonical' recorded
          inp m in
      let (quoted, q, e) = decided prior g in
      let none_newer : (p : Bytes) → ¬ Elem p prior.newer_inputs = λ p r.
        let (i, mtime, mi, at_p, t, differs) =
          reported_input_changed fs info db fs' db' v canonical canonical' recorded prior p g r in
        let (le, still) = unchanged i mtime mi t in
        differs (ap fs'.last_write_time (sym at_p) ∙ still ∙ ap some (omega (arith, le))) in
      let quoted_same : quoted ≡ prior.previous_command.quoted_command =
        cc (q, command, quoted_info, same) in
      e
      ∙ up_to_date_skips fs' next quoted prior exists (no_Elem-is_nil prior.newer_inputs none_newer)
          quoted_same
