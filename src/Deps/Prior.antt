-- ===== src/Deps/Prior.antt =====
-- What a later build finds for an output whose dependencies `update_deps_info` has recorded.
use bpt.Prelude.{
  ℕ, min, true, false, Option, none, some, List, [], ◌∷◌, ◌≡◌, ◌≢◌, ◌↔◌, inl, inr, refl, sym, ap,
  ◌∙◌, arith, Bytes, codes, bytes_eq, bytes_eq_iff, Bool-cases, Elem, ◌>>=◌, ◌==◌, ==_iff,
}
use bpt.Database.{
  FileSystem, normalize_path, Database, Completed, Compilation, InputInfo, record_file,
  record_compilation, forget_inputs_of, some_rows, inputs_of, command_of,
}
use bpt.Database.Laws.{IsValid, inputs_at, inputs_of-inputs_at}
use bpt.Database.Commands.{
  row_at, upserted, record_compilation-row_at, record_compilation-IsValid, forget_inputs_of-IsValid,
  forget_inputs_of-row_at, forget_inputs_of-inputs_at, command_of-row_at,
}
use bpt.Deps.{
  FileDepsInfo, PriorCompilation, update_deps_info, get_prior_compilation, newer, is_newer, differs,
}
use bpt.Deps.Recorded.{IsEntry, AfterInputs, Elem-along, record_inputs-AfterInputs}

pub newer-Elem :
    (fs : FileSystem) (p : Bytes) (infos : List InputInfo)
    → Elem p (newer fs infos)
      ↔ ((e : InputInfo) × Elem e infos × (e.path ≡ p) × (is_newer fs e ≡ true))
newer-Elem fs p [] = (λ h. absurd h, λ (e, h, k, b). absurd h)
newer-Elem fs p (i ∷ infos) = elim (Bool-cases (is_newer fs i)) [
  | inl is ↦
      rw (newer, is)
        (
          (λ h. elim h [
            | inl h ↦ (i, inl refl, sym h, is)
            | inr h ↦ let (e, m, k, b) = (newer-Elem fs p infos).0 h in (e, inr m, k, b)
          ]),
          (λ (e, m, k, b). elim m [
            | inl m ↦ inl (sym k ∙ ap (λ x. x.path) m)
            | inr m ↦ inr ((newer-Elem fs p infos).1 (e, m, k, b))
          ]),
        )
  | inr not_newer ↦
      rw (newer, not_newer)
        (
          (λ h. let (e, m, k, b) = (newer-Elem fs p infos).0 h in (e, inr m, k, b)),
          (λ (e, m, k, b). elim m [
            | inl m ↦ cc (ap (is_newer fs) m)
            | inr m ↦ (newer-Elem fs p infos).1 (e, m, k, b)
          ]),
        )
]

-- The command that is recorded for an output is the last one, whatever was recorded before.
upserted-quoted_command :
    (id : ℕ) (cmd : Completed) (old : Option Compilation)
    → (upserted id cmd old).done.quoted_command ≡ cmd.quoted_command
upserted-quoted_command id cmd none = refl
upserted-quoted_command id cmd (some row) = ground arith

some_rows-Elem :
    (e : InputInfo) (infos : List InputInfo) → Elem e infos → some_rows infos ≡ some infos
some_rows-Elem e [] h = absurd h
some_rows-Elem e (i ∷ infos) h = refl

differs-true : (o : Option ℕ) (n : ℕ) → differs o n ≡ true → o ≢ some n
differs-true none n h e = cc
differs-true (some m) n h e = ground arith

true-differs : (o : Option ℕ) (n : ℕ) → o ≢ some n → differs o n ≡ true
true-differs none n h = refl
true-differs (some m) n h = elim (Bool-cases (m == n)) [
  | inl same ↦ absurd (h (ap some ((==_iff m n).0 same)))
  | inr other ↦ rw (other)
]

is_newer-differs :
    (fs : FileSystem) (e : InputInfo)
    → is_newer fs e ≡ true
    → fs.last_write_time e.path ≢ some e.prev_mtime
is_newer-differs fs e h = elim (Bool-cases (bytes_eq (fs.extension e.path) (codes ".syncheck"))) [
  | inl skipped ↦ let is : is_newer fs e ≡ false = rw (is_newer, skipped) in cc
  | inr x ↦
      let is : is_newer fs e ≡ differs (fs.last_write_time e.path) e.prev_mtime =
        rw (is_newer, x) in
      let d = sym is ∙ h in differs-true (fs.last_write_time e.path) e.prev_mtime d
]

prior_of_infos : FileSystem → Completed → List InputInfo → Option PriorCompilation
prior_of_infos fs cmd infos = some_rows infos >>= λ inputs.
    some (record { newer_inputs = newer fs inputs; previous_command = cmd })

newer_inputs-prior_of_infos :
    (fs : FileSystem) (cmd : Completed) (infos : List InputInfo) (prior : PriorCompilation)
    → prior_of_infos fs cmd infos ≡ some prior
    → prior.newer_inputs ≡ newer fs infos
unfolding prior_of_infos
newer_inputs-prior_of_infos fs cmd [] prior h = cc
newer_inputs-prior_of_infos fs cmd (i ∷ infos) prior h = cc h

module _ (fs : FileSystem) (info : FileDepsInfo) (db : Database) where
  -- The output of a compilation is a path that std::filesystem::weakly_canonical has made.
  abbrev pub IsCanonical : Type 0
  IsCanonical = fs.weakly_canonical info.output ≡ normalize_path fs info.output

  abbrev start_db : Database
  start_db = forget_inputs_of fs info.output (record_compilation fs info.output info.command db)

  start_IsValid : IsValid db → IsValid start_db
  start_IsValid v =
      forget_inputs_of-IsValid fs info.output _
        (record_compilation-IsValid fs info.output info.command db v)

  start_no_inputs : IsCanonical → inputs_at start_db (normalize_path fs info.output) ≡ []
  start_no_inputs c =
      forget_inputs_of-inputs_at fs info.output (record_compilation fs info.output info.command db)
        (normalize_path fs info.output)
      ∙ rw ((bytes_eq_iff (fs.weakly_canonical info.output) (normalize_path fs info.output)).1 c)

  start_row :
      IsValid db
      → row_at start_db (normalize_path fs info.output)
        ≡ some (
            upserted
              (record_file fs info.output db).0
              info.command
              (row_at db (normalize_path fs info.output)))
  start_row v =
      forget_inputs_of-row_at fs info.output _ (normalize_path fs info.output)
      ∙ record_compilation-row_at fs info.output info.command db (normalize_path fs info.output) v
      ∙ rw ((bytes_eq_iff (normalize_path fs info.output) (normalize_path fs info.output)).1 refl)

  after :
      (db' : Database)
      → IsValid db
      → update_deps_info fs info db ≡ some db'
      → AfterInputs fs info.output info.compile_start_time info.inputs start_db db'
  unfolding update_deps_info
  after db' v h =
      record_inputs-AfterInputs fs info.output info.compile_start_time info.inputs start_db db'
        (start_IsValid v) h

  -- `fs'` is the file system that the later build sees.
  module _ (fs' : FileSystem) (db' : Database) (v : IsValid db) (c : IsCanonical)
      (c' : fs'.weakly_canonical info.output ≡ normalize_path fs info.output)
      (h : update_deps_info fs info db ≡ some db') where
    abbrev last_done : Completed
    last_done =
        (upserted (record_file fs info.output db).0 info.command
          (row_at db (normalize_path fs info.output))).done

    command_found : command_of fs' info.output db' ≡ some last_done
    command_found =
        command_of-row_at fs' info.output db'
        ∙ rw (c', (after db' v h).rows (normalize_path fs info.output), start_row v)

    abbrev infos : List InputInfo
    infos = inputs_at db' (normalize_path fs info.output)

    prior_found :
        (e : InputInfo)
        → Elem e infos
        → get_prior_compilation fs' db' info.output
          ≡ some (record { newer_inputs = newer fs' infos; previous_command = last_done })
    unfolding get_prior_compilation
    prior_found e m =
        let found : inputs_of fs' info.output db' ≡ some infos =
          inputs_of-inputs_at fs' info.output db' ∙ rw (c') (some_rows-Elem e infos m) in
        rw (get_prior_compilation, command_found, found)

    prior_newer :
        (prior : PriorCompilation)
        → get_prior_compilation fs' db' info.output ≡ some prior
        → prior.newer_inputs ≡ newer fs' infos
    unfolding get_prior_compilation prior_of_infos
    prior_newer prior g =
        let eq : get_prior_compilation fs' db' info.output ≡ prior_of_infos fs' last_done infos =
          rw (get_prior_compilation, command_found, inputs_of-inputs_at fs' info.output db', c') in
        newer_inputs-prior_of_infos fs' last_done infos prior (sym eq ∙ g)

    entry : (e : InputInfo) → Elem e infos → IsEntry fs info.compile_start_time info.inputs e
    entry e m = elim ((after db' v h).entries e m) [
      | inr is ↦ is
      | inl old ↦ absurd (Elem-along e (start_no_inputs c) old)
    ]

    -- A recorded compilation with an input is found again, with its command.
    pub get_prior_compilation-update_deps_info :
        (inp : Bytes)
        → Elem inp info.inputs
        → (prior : PriorCompilation) × (get_prior_compilation fs' db' info.output ≡ some prior)
          × (prior.previous_command.quoted_command ≡ info.command.quoted_command)
    get_prior_compilation-update_deps_info inp m =
        let (e, i, p) = (after db' v h).covered inp m in
        (
          _,
          prior_found e i,
          upserted-quoted_command _ info.command (row_at db (normalize_path fs info.output)),
        )

    -- An input that has changed is reported.
    pub changed_input_reported :
        (prior : PriorCompilation) (inp : Bytes)
        → get_prior_compilation fs' db' info.output ≡ some prior
        → Elem inp info.inputs
        → bytes_eq (fs'.extension (normalize_path fs inp)) (codes ".syncheck") ≡ false
        → ((q : Bytes) (mtime : ℕ)
            → Elem q info.inputs
            → normalize_path fs q ≡ normalize_path fs inp
            → fs.last_write_time q ≡ some mtime
            → fs'.last_write_time (normalize_path fs inp)
              ≢ some (min mtime info.compile_start_time))
        → Elem (normalize_path fs inp) prior.newer_inputs
    changed_input_reported prior inp g m x changed =
        let (e, i, p) = (after db' v h).covered inp m in
        let (q, mtime, mq, t, pq, mt) = entry e i in
        let newer_e : is_newer fs' e ≡ true =
          rw (is_newer, p, x)
            (true-differs (fs'.last_write_time (normalize_path fs inp)) e.prev_mtime
              (λ eq. changed q mtime mq (pq ∙ p) t (eq ∙ ap some (sym mt)))) in
        rw (prior_newer prior g, ← p) ((newer-Elem fs' e.path infos).1 (e, i, refl, newer_e))

    -- What is reported is an input that has changed.
    pub reported_input_changed :
        (prior : PriorCompilation) (p : Bytes)
        → get_prior_compilation fs' db' info.output ≡ some prior
        → Elem p prior.newer_inputs
        → (inp : Bytes) × (mtime : ℕ) × Elem inp info.inputs
          × (normalize_path fs inp ≡ p)
          × (fs.last_write_time inp ≡ some mtime)
          × (fs'.last_write_time p ≢ some (min mtime info.compile_start_time))
    reported_input_changed prior p g m =
        let (e, i, k, b) = (newer-Elem fs' p infos).0 (rw (← prior_newer prior g) m) in
        let (q, mtime, mq, t, pq, mt) = entry e i in
        (
          q,
          mtime,
          mq,
          pq ∙ k,
          t,
          (λ eq. is_newer-differs fs' e b (ap fs'.last_write_time k ∙ eq ∙ ap some mt)),
        )
