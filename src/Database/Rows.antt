-- ===== src/Database/Rows.antt =====
-- The rows of bpt_compile_deps that a query for one output sees, under the statements that change them.
use bpt.Prelude.{
  ℕ, none, some, List, [], ◌∷◌, ◌≡◌, ◌≢◌, inl, inr, refl, ap, ◌∙◌, arith, if◌then◌else◌, ◌==◌,
  ==_iff, Bytes, bytes_eq, bytes_eq_iff, Bool-cases, All,
}
use bpt.Database.{Dep, file_id_of, same_dep, replace_dep, without_output, InputInfo, inputs_with}
use bpt.Database.Files.{Grows, GrowsAt, get_elem?-file_id_of, file_id_of_inj}

abbrev pub IsFile : List Bytes → ℕ → Type 0
IsFile files id = (q : Bytes) × (file_id_of files q ≡ some id)

-- The input and the output of a row are files of the table.
abbrev pub Known : List Bytes → Dep → Type 0
Known files d = IsFile files d.input_file_id × IsFile files d.output_file_id

-- The rows that a query sees once an input was recorded.
abbrev pub replace_info : Bytes → ℕ → List InputInfo → List InputInfo
replace_info p mtime [] = (record { path = p; prev_mtime = mtime }) ∷ []
replace_info p mtime (i ∷ infos) =
    let rest = replace_info p mtime infos in if bytes_eq i.path p then rest else i ∷ rest

same_path :
    (files : List Bytes) (p q : Bytes) (a j : ℕ)
    → file_id_of files p ≡ some a
    → file_id_of files q ≡ some j
    → bytes_eq q p ≡ (j == a)
same_path files p q a j h k = elim (Bool-cases (bytes_eq q p)) [
  | inl same ↦
      let e = (bytes_eq_iff q p).0 same in
      let ids : j ≡ a = cc (ap (file_id_of files) e) in rw (same, (==_iff j a).1 ids)
  | inr other ↦ elim (Bool-cases (j == a)) [
    | inr differ ↦ rw (other, differ)
    | inl ids ↦
        let e : q ≡ p = cc (
          get_elem?-file_id_of files p a h,
          get_elem?-file_id_of files q j k,
          (==_iff j a).0 ids,
        ) in
        cc ((bytes_eq_iff q p).1 e)
  ]
]

pub inputs_with-replace_dep :
    (files : List Bytes) (p : Bytes) (a id mtime : ℕ) (deps : List Dep)
    → file_id_of files p ≡ some a
    → All (Known files) deps
    → inputs_with files id (replace_dep a id mtime deps)
      ≡ replace_info p mtime (inputs_with files id deps)
inputs_with-replace_dep files p a id mtime [] h k = ground (arith, get_elem?-file_id_of files p a h)
inputs_with-replace_dep files p a id mtime (d ∷ deps) h (((q, e), o), k) = ground (
  arith,
  get_elem?-file_id_of files q d.input_file_id e,
  same_path files p q a d.input_file_id h e,
  inputs_with-replace_dep files p a id mtime deps h k,
)

pub inputs_with-replace_dep_other :
    (files : List Bytes) (a id other mtime : ℕ) (deps : List Dep)
    → id ≢ other
    → inputs_with files id (replace_dep a other mtime deps) ≡ inputs_with files id deps
inputs_with-replace_dep_other files a id other mtime [] n = ground arith
inputs_with-replace_dep_other files a id other mtime (d ∷ deps) n =
    ground (arith, inputs_with-replace_dep_other files a id other mtime deps n)

pub inputs_with-without_output :
    (files : List Bytes) (id : ℕ) (deps : List Dep)
    → inputs_with files id (without_output id deps) ≡ []
inputs_with-without_output files id [] = refl
inputs_with-without_output files id (d ∷ deps) =
    ground (arith, inputs_with-without_output files id deps)

pub inputs_with-without_output_other :
    (files : List Bytes) (id other : ℕ) (deps : List Dep)
    → id ≢ other
    → inputs_with files id (without_output other deps) ≡ inputs_with files id deps
inputs_with-without_output_other files id other [] n = refl
inputs_with-without_output_other files id other (d ∷ deps) n =
    ground (arith, inputs_with-without_output_other files id other deps n)

pub inputs_with-grows :
    (files files' : List Bytes) (id : ℕ) (deps : List Dep)
    → GrowsAt files files'
    → All (Known files) deps
    → inputs_with files' id deps ≡ inputs_with files id deps
inputs_with-grows files files' id [] g k = refl
inputs_with-grows files files' id (d ∷ deps) g (((q, e), o), k) =
    let here = get_elem?-file_id_of files q d.input_file_id e in
    ground (arith, here, g d.input_file_id q here, inputs_with-grows files files' id deps g k)

pub Known-Grows :
    (files files' : List Bytes) (deps : List Dep)
    → Grows files files'
    → All (Known files) deps
    → All (Known files') deps
Known-Grows files files' [] g k = tt
Known-Grows files files' (d ∷ deps) g (((q, e), (o, f)), k) =
    (((q, g q d.input_file_id e), (o, g o d.output_file_id f)), Known-Grows files files' deps g k)

pub Known-replace_dep :
    (files : List Bytes) (a id mtime : ℕ) (deps : List Dep)
    → IsFile files a
    → IsFile files id
    → All (Known files) deps
    → All (Known files) (replace_dep a id mtime deps)
Known-replace_dep files a id mtime [] h o k = ((h, o), tt)
Known-replace_dep files a id mtime (d ∷ deps) h o (e, k) =
    let rest = Known-replace_dep files a id mtime deps h o k in
    elim (Bool-cases (same_dep a id d)) [
      | inl same ↦ rw (replace_dep, same) rest
      | inr other ↦ rw (replace_dep, other) (e, rest)
    ]

pub Known-without_output :
    (files : List Bytes) (id : ℕ) (deps : List Dep)
    → All (Known files) deps
    → All (Known files) (without_output id deps)
Known-without_output files id [] k = tt
Known-without_output files id (d ∷ deps) (e, k) =
    let rest = Known-without_output files id deps k in
    elim (Bool-cases (d.output_file_id == id)) [
      | inl same ↦ rw (without_output, same) rest
      | inr other ↦ rw (without_output, other) (e, rest)
    ]

-- A file that was not in the table has no rows.
pub inputs_with-new :
    (files files' : List Bytes) (k : Bytes) (id : ℕ) (deps : List Dep)
    → Grows files files'
    → file_id_of files k ≡ none
    → file_id_of files' k ≡ some id
    → All (Known files) deps
    → inputs_with files' id deps ≡ []
inputs_with-new files files' k id [] g n h all = refl
inputs_with-new files files' k id (d ∷ deps) g n h ((i, (o, f)), all) =
    let rest = inputs_with-new files files' k id deps g n h all in
    elim (Bool-cases (d.output_file_id == id)) [
      | inr other ↦ rw (inputs_with, other) rest
      | inl same ↦
          let e : file_id_of files' o ≡ some id =
            g o d.output_file_id f ∙ ap some ((==_iff d.output_file_id id).0 same) in
          let eq = file_id_of_inj files' o k id e h in cc (ap (file_id_of files) eq)
    ]
