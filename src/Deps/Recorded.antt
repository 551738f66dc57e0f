-- ===== src/Deps/Recorded.antt =====
-- What the database holds for an output after `update_deps_info`.
use bpt.Prelude.{
  ℕ, min, false, some, List, [], ◌∷◌, ◌≡◌, ◌⊎◌, inl, inr, refl, sym, ap, ◌∙◌, arith, Bytes,
  bytes_eq, bytes_eq_iff, Bool-cases, Elem, >>=-eq-some,
}
use bpt.Database.{FileSystem, normalize_path, Database, InputInfo, record_dep}
use bpt.Database.Rows.{replace_info}
use bpt.Database.Laws.{IsValid, inputs_at, record_dep-IsValid, record_dep-inputs_at}
use bpt.Database.Commands.{row_at, record_dep-row_at}
use bpt.Deps.{record_inputs}

-- The entries are those of these inputs, each with the earlier of its time and the start.
abbrev pub IsEntry : FileSystem → ℕ → List Bytes → InputInfo → Type 0
IsEntry fs start inputs e =
    (inp : Bytes) × (mtime : ℕ) × Elem inp inputs
    × (fs.last_write_time inp ≡ some mtime)
    × (normalize_path fs inp ≡ e.path)
    × (min mtime start ≡ e.prev_mtime)

replace_info-Elem :
    (p : Bytes) (m : ℕ) (e : InputInfo) (infos : List InputInfo)
    → Elem e (replace_info p m infos)
    → (e ≡ record { path = p; prev_mtime = m }) ⊎ Elem e infos
replace_info-Elem p m e [] h = h
replace_info-Elem p m e (i ∷ infos) h = ground (arith, replace_info-Elem p m e infos)

replace_info-here :
    (p : Bytes) (m : ℕ) (infos : List InputInfo)
    → Elem (record { path = p; prev_mtime = m }) (replace_info p m infos)
replace_info-here p m [] = inl refl
replace_info-here p m (i ∷ infos) = ground (arith, replace_info-here p m infos)

replace_info-keeps :
    (p q : Bytes) (m : ℕ) (infos : List InputInfo) (e : InputInfo)
    → Elem e infos
    → e.path ≡ q
    → (e' : InputInfo) × Elem e' (replace_info p m infos) × (e'.path ≡ q)
replace_info-keeps p q m [] e h k = absurd h
replace_info-keeps p q m (i ∷ infos) e h k = elim (Bool-cases (bytes_eq i.path p)) [
  | inl same ↦ elim h [
    | inr h ↦ rw (replace_info, same) (replace_info-keeps p q m infos e h k)
    | inl h ↦
        let at_q : p ≡ q = cc ((bytes_eq_iff i.path p).0 same, ap (λ x. x.path) h) in
        rw (replace_info, same) (_, replace_info-here p m infos, at_q)
  ]
  | inr other ↦ elim h [
    | inl h ↦ rw (replace_info, other) (e, inl h, k)
    | inr h ↦
        let (e', h', k') = replace_info-keeps p q m infos e h k in
        rw (replace_info, other) (e', inr h', k')
  ]
]

-- What the loop over the inputs leaves for its output, and for the others.
pub record AfterInputs (fs : FileSystem) (output : Bytes) (start : ℕ) (inputs : List Bytes)
    (db db' : Database) : Type 0 where
  pub valid : IsValid db'
  pub entries :
      (e : InputInfo)
      → Elem e (inputs_at db' (normalize_path fs output))
      → Elem e (inputs_at db (normalize_path fs output)) ⊎ IsEntry fs start inputs e
  pub kept :
      (e : InputInfo)
      → Elem e (inputs_at db (normalize_path fs output))
      → (e' : InputInfo) × Elem e' (inputs_at db' (normalize_path fs output)) × (e'.path ≡ e.path)
  pub covered :
      (inp : Bytes)
      → Elem inp inputs
      → (e : InputInfo) × Elem e (inputs_at db' (normalize_path fs output))
        × (e.path ≡ normalize_path fs inp)
  pub others :
      (k : Bytes) → bytes_eq (normalize_path fs output) k ≡ false → inputs_at db' k ≡ inputs_at db k
  pub rows : (k : Bytes) → row_at db' k ≡ row_at db k

pub Elem-along : (e : InputInfo) {xs ys : List InputInfo} → xs ≡ ys → Elem e xs → Elem e ys
Elem-along e h m = rw (← h) m

record_dep-here :
    (fs : FileSystem) (inp output : Bytes) (m : ℕ) (db : Database)
    → IsValid db
    → inputs_at (record_dep fs inp output m db) (normalize_path fs output)
      ≡ replace_info (normalize_path fs inp) m (inputs_at db (normalize_path fs output))
record_dep-here fs inp output m db v =
    let k = normalize_path fs output in
    record_dep-inputs_at fs inp output m db v k ∙ rw ((bytes_eq_iff k k).1 refl)

module _ (fs : FileSystem) (output : Bytes) (start : ℕ) where
  abbrev here : Database → List InputInfo
  here db = inputs_at db (normalize_path fs output)

  entries_after :
      (inp : Bytes) (inputs : List Bytes) (mtime : ℕ) (db db' : Database)
      → IsValid db
      → fs.last_write_time inp ≡ some mtime
      → AfterInputs fs output start inputs (record_dep fs inp output (min mtime start) db) db'
      → AfterInputs fs output start (inp ∷ inputs) db db'
  entries_after inp inputs mtime db db' v t a =
      let db1 = record_dep fs inp output (min mtime start) db in
      let k = normalize_path fs output in
      let first = record_dep-here fs inp output (min mtime start) db v in
      record {
        valid = a.valid;
        entries = λ e h. elim (a.entries e h) [
          | inr (inp', mtime', i, t', p', m') ↦ inr (inp', mtime', inr i, t', p', m')
          | inl h1 ↦
              elim (replace_info-Elem (normalize_path fs inp) (min mtime start) e (here db)
                (Elem-along e (first) h1)) [
                  | inr old ↦ inl old
                  | inl new ↦ inr (
                    inp,
                    mtime,
                    inl refl,
                    t,
                    sym (ap (λ x. x.path) new),
                    sym (ap (λ x. x.prev_mtime) new),
                  )
                ]
        ];
        kept = λ e h.
            let (e1, h1, p1) =
              replace_info-keeps (normalize_path fs inp) e.path (min mtime start) (here db) e h
                refl in
            let (e2, h2, p2) = a.kept e1 (Elem-along e1 (sym first) h1) in (e2, h2, p2 ∙ p1);
        covered = λ q h. elim h [
          | inr h ↦ a.covered q h
          | inl same ↦
              let (e2, h2, p2) = a.kept _ (
                Elem-along _ (sym first)
                  (replace_info-here (normalize_path fs inp) (min mtime start) (here db))) in
              (e2, h2, p2 ∙ ap (normalize_path fs) (sym same))
        ];
        others = λ q n.
            a.others q n ∙ record_dep-inputs_at fs inp output (min mtime start) db v q ∙ rw (n);
        rows = λ q. a.rows q ∙ record_dep-row_at fs inp output (min mtime start) db q v;
      }

  -- The loop that records the inputs gives each of them an entry, makes no other entry, and leaves
  -- what is recorded for other outputs.
  pub record_inputs-AfterInputs :
      (inputs : List Bytes) (db db' : Database)
      → IsValid db
      → record_inputs fs output start inputs db ≡ some db'
      → AfterInputs fs output start inputs db db'
  record_inputs-AfterInputs [] db db' v h =
      let same : db ≡ db' = cc h in
      rw (← same) (record {
        valid = v;
        entries = λ e i. inl i;
        kept = λ e i. (e, i, refl);
        covered = λ q i. absurd i;
        others = λ q n. refl;
        rows = λ q. refl;
      })
  record_inputs-AfterInputs (inp ∷ inputs) db db' v h =
      let (mtime, t, rest) = >>=-eq-some (fs.last_write_time inp) _ h in
      entries_after inp inputs mtime db db' v t (
        record_inputs-AfterInputs inputs (record_dep fs inp output (min mtime start) db) db'
          (record_dep-IsValid fs inp output (min mtime start) db v) rest)
