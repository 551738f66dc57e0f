-- ===== src/Database/Mean.antt =====
-- The average duration of a file over all its compilations.
use mathlib.Core.Logic.{⊎_map}
use bpt.Prelude.{
  ℕ, zero, suc, ◌+◌, ◌-◌, ◌*◌, ◌≤◌, ◌<◌, ◌≡◌, ◌⊎◌, min, arith, inl, inr, refl, ◌∙◌, Bool-cases,
  dec_lt, some, none, List, [], ◌∷◌, length, ltb, if◌then◌else◌, Bytes, bytes_eq_iff,
}
use bpt.Database.{
  FileSystem, Database, Completed, Compilation, normalize_path, record_file, average, update_row,
  record_compilation,
}
use bpt.Database.Average.{Near, average-Near}
use bpt.Database.Commands.{row_at, upserted, record_compilation-row_at, record_compilation-IsValid}
use bpt.Database.Laws.{IsValid}

-- The compilations of a file, in their order.
abbrev pub record_all : FileSystem → Bytes → List Completed → Database → Database
record_all fs file [] db = db
record_all fs file (cmd ∷ cmds) db = record_all fs file cmds (record_compilation fs file cmd db)

-- The durations that count: a compilation after the first that is shorter than 500 does not.
abbrev pub counted : List Completed → List ℕ
counted [] = []
counted (cmd ∷ cmds) =
    let rest = counted cmds in if ltb cmd.duration 500 then rest else cmd.duration ∷ rest

abbrev pub total : List ℕ → ℕ
total [] = 0
total (d ∷ ds) = d + total ds

-- 0 + 1 + … + (n - 1).
abbrev pub triangle : ℕ → ℕ
triangle zero = 0
triangle (suc n) = n + triangle n

-- The average and the number of compilations after so many counted durations with this sum.
abbrev HasMean : ℕ → ℕ → ℕ → ℕ → Type 0
HasMean k sum avg n = (n ≡ min 10 k) × ((10 < k) ⊎ Near (triangle k) (k * avg) sum)

-- A row after one more duration.
abbrev pub Averages : List ℕ → ℕ → ℕ → Compilation → Type 0
Averages durations before duration row =
    let k = length durations in
    let m = min 10 (k + 1) in
    (row.n_compilations ≡ m)
    × Near (m - 1) (m * row.done.duration) ((m - 1) * before + duration)
    × ((10 ≤ k) ⊎ Near (triangle (suc k)) (suc k * row.done.duration) (total durations + duration))

Near-step :
    (k avg avg' sum d t : ℕ)
    → Near t (k * avg) sum
    → Near k (suc k * avg') (k * avg + d)
    → Near (k + t) (suc k * avg') (sum + d)
Near-step k avg avg' sum d t (a, b) (c, e) = (omega (arith, a, b, c, e), omega (arith, a, b, c, e))

HasMean-average :
    (k sum avg n d : ℕ)
    → HasMean k sum avg n
    → HasMean (suc k) (sum + d) (average avg n d) (min 10 (n + 1))
HasMean-average k sum avg n d (e, inl h) = (omega (arith, e, h), inl (omega (arith, h)))
HasMean-average k sum avg n d (e, inr h) = elim (dec_lt k 10) [
  | no not_less ↦ (omega (arith, e, not_less), inl (omega (arith, not_less)))
  | yes l ↦ (
    omega (arith, e, l),
    inr (
        Near-step k avg (average avg n d) sum d (triangle k) h
          (average-Near k avg n d (omega (arith, e, l)))),
  )
]

HasMean-update_row :
    (k sum : ℕ) (cmd : Completed) (row : Compilation)
    → 500 ≤ cmd.duration
    → HasMean k sum row.done.duration row.n_compilations
    → HasMean
        (suc k)
        (sum + cmd.duration)
        (update_row cmd row).done.duration
        (update_row cmd row).n_compilations
HasMean-update_row k sum cmd row long h = elim (Bool-cases (ltb cmd.duration 500)) [
  | inl short ↦ ground (arith, short, long)
  | inr counts ↦
      rw (update_row, counts)
        (HasMean-average k sum row.done.duration row.n_compilations cmd.duration h)
]

row_at-record_compilation :
    (fs : FileSystem) (file : Bytes) (cmd : Completed) (db : Database) (row : Compilation)
    → IsValid db
    → row_at db (normalize_path fs file) ≡ some row
    → row_at (record_compilation fs file cmd db) (normalize_path fs file)
      ≡ some (update_row cmd row)
row_at-record_compilation fs file cmd db row v e =
    record_compilation-row_at fs file cmd db (normalize_path fs file) v
    ∙ rw ((bytes_eq_iff (normalize_path fs file) (normalize_path fs file)).1 refl, e)

record_all-HasMean :
    (fs : FileSystem) (file : Bytes) (cmds : List Completed) (db : Database) (row : Compilation)
    → (k sum : ℕ) → IsValid db
    → row_at db (normalize_path fs file) ≡ some row
    → HasMean k sum row.done.duration row.n_compilations
    → IsValid (record_all fs file cmds db)
      × ((row' : Compilation) × (row_at (record_all fs file cmds db) (normalize_path fs file)
            ≡ some row')
          × HasMean
              (k + length (counted cmds))
              (sum + total (counted cmds))
              row'.done.duration
              row'.n_compilations)
record_all-HasMean fs file [] db row k sum v e h =
    let none_more : k + 0 ≡ k = omega arith in
    let sum_kept : sum + 0 ≡ sum = omega arith in
    (v, (row, e, rw (counted, length, total, none_more, sum_kept) h))
record_all-HasMean fs file (cmd ∷ cmds) db row k sum v e h =
    let v1 = record_compilation-IsValid fs file cmd db v in
    let e1 = row_at-record_compilation fs file cmd db row v e in
    elim (Bool-cases (ltb cmd.duration 500)) [
      | inl short ↦
          rw (counted, short)
            (record_all-HasMean fs file cmds (record_compilation fs file cmd db)
              (update_row cmd row) k sum v1 e1 (rw (update_row, short) h))
      | inr counts ↦
          let ds = counted cmds in
          let one_more : k + suc (length ds) ≡ suc k + length ds = omega arith in
          let sum_more : sum + (cmd.duration + total ds) ≡ sum + cmd.duration + total ds =
            omega arith in
          rw (counted, counts, length, total, one_more, sum_more)
            (record_all-HasMean fs file cmds (record_compilation fs file cmd db)
              (update_row cmd row) (suc k) (sum + cmd.duration) v1 e1
              (HasMean-update_row k sum cmd row (ground (arith, counts)) h))
    ]

HasMean-Averages :
    (ds : List ℕ) (last : Completed) (row : Compilation)
    → 500 ≤ last.duration
    → HasMean (length ds) (total ds) row.done.duration row.n_compilations
    → Averages ds row.done.duration last.duration (update_row last row)
HasMean-Averages ds last row long h = elim (Bool-cases (ltb last.duration 500)) [
  | inl short ↦ ground (arith, short, long)
  | inr counts ↦
      let (n, e) = h in
      let j = min 10 (length ds + 1) - 1 in
      let m : min 10 (row.n_compilations + 1) ≡ suc j = omega (arith, n) in
      let m' : min 10 (length ds + 1) ≡ suc j = omega arith in
      let (count, mean) =
        HasMean-average (length ds) (total ds) row.done.duration row.n_compilations last.duration
          h in
      let less : suc j - 1 ≡ j = omega arith in
      rw (update_row, counts, m', less)
        (
          m,
          average-Near j row.done.duration row.n_compilations last.duration m,
          ⊎_map (λ l. omega (arith, l)) (λ x. x) mean,
        )
]

-- Take a well-formed database without a row for the normalized path of a file, record one or more
-- compilations of this file, and then one of at least 500 ms. Before and after the last there is a
-- row for that path. With k the number of counted durations before the last (the first one, and of
-- the others those of at least 500 ms) and m the smaller of 10 and k + 1: the last row has m as
-- its number of compilations; m times its average differs by at most m - 1 from m - 1 times the
-- average before plus the last duration; and when k is less than 10, k + 1 times its average
-- differs by at most 0 + 1 + … + k from the sum of the counted durations and the last.
pub record_all-Averages :
    (fs : FileSystem) (file : Bytes) (first : Completed) (rest : List Completed)
    → (last : Completed) (db : Database) → IsValid db
    → row_at db (normalize_path fs file) ≡ none
    → 500 ≤ last.duration
    → (row row' : Compilation) × (row_at
          (record_all fs file (first ∷ rest) db)
          (normalize_path fs file)
        ≡ some row)
      × (row_at
            (record_compilation fs file last (record_all fs file (first ∷ rest) db))
            (normalize_path fs file)
          ≡ some row')
      × Averages (first.duration ∷ counted rest) row.done.duration last.duration row'
record_all-Averages fs file first rest last db v new long =
    let p = normalize_path fs file in
    let db1 = record_compilation fs file first db in
    let e1 : row_at db1 p ≡ some (upserted (record_file fs file db).0 first none) =
      record_compilation-row_at fs file first db p v ∙ rw ((bytes_eq_iff p p).1 refl, new) in
    let (v2, (row, e2, h)) =
      record_all-HasMean fs file rest db1 (upserted (record_file fs file db).0 first none) 1
        first.duration (record_compilation-IsValid fs file first db v) e1
        (refl, inr (omega arith, omega arith)) in
    let k : 1 + length (counted rest) ≡ length (first.duration ∷ counted rest) = omega arith in
    (
      row,
      update_row last row,
      e2,
      row_at-record_compilation fs file last (record_all fs file rest db1) row v2 e2,
      HasMean-Averages (first.duration ∷ counted rest) last row long (rw (k) at h),
    )
