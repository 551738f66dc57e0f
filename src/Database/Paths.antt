-- ===== src/Database/Paths.antt =====
-- The loop of `normalize_path`.
use bpt.Prelude.{
  ℕ, zero, suc, ◌<◌, ◌≤◌, [], ◌∷◌, ◌≡◌, ◌≢◌, ◌⊎◌, inl, inr, refl, arith, length, Bytes,
}
use bpt.Database.{
  FileSystem, Rounds, ended, still_going, path_of, drop_slash, normalize_in, normalize_path,
}

-- No condition of the loop is left.
abbrev pub Stopped : FileSystem → Bytes → Type 0
Stopped fs p = (p ≡ []) ⊎ (fs.filename p ≢ [])

-- A root is its own parent.
abbrev pub IsRoot : FileSystem → Bytes → Type 0
IsRoot fs p = (fs.filename p ≡ []) × (fs.parent_path p ≡ p)

-- The parent of a path that ends in a slash is shorter, unless the path is a root.
abbrev pub Shortens : FileSystem → Type 0
Shortens fs =
    (c : ℕ) (p : Bytes)
    → fs.filename (c ∷ p) ≡ []
    → (length (fs.parent_path (c ∷ p)) < length (c ∷ p)) ⊎ (fs.parent_path (c ∷ p) ≡ c ∷ p)

name_cases : (name : Bytes) → (name ≡ []) ⊎ ((d : ℕ) × (rest : Bytes) × (name ≡ d ∷ rest))
name_cases [] = inl refl
name_cases (d ∷ rest) = inr (d, rest, refl)

-- What a number of rounds has come to: the loop has ended, or is at a root.
abbrev pub RoundsEnd : FileSystem → Rounds → Type 0
RoundsEnd fs (ended p) = Stopped fs p
RoundsEnd fs (still_going p) = IsRoot fs p

drop_slash_root :
    (fs : FileSystem) (c : ℕ) (p : Bytes) (rounds : ℕ)
    → IsRoot fs (c ∷ p)
    → drop_slash fs rounds (c ∷ p) ≡ still_going (c ∷ p)
unfolding drop_slash
drop_slash_root fs c p zero (n, k) = rw (drop_slash, n)
drop_slash_root fs c p (suc rounds) (n, k) =
    rw (drop_slash, n, k) (drop_slash_root fs c p rounds (n, k))

drop_slash_ends :
    (fs : FileSystem) (rounds : ℕ) (p : Bytes)
    → Shortens fs
    → length p ≤ rounds
    → RoundsEnd fs (drop_slash fs rounds p)
unfolding drop_slash
drop_slash_ends fs zero [] s h = inl refl
drop_slash_ends fs (suc rounds) [] s h = inl refl
drop_slash_ends fs zero (c ∷ p) s h = ground (arith)
drop_slash_ends fs (suc rounds) (c ∷ p) s h = elim (name_cases (fs.filename (c ∷ p))) [
  | inr (d, name, e) ↦ rw (drop_slash, e) (inr (λ k. cc))
  | inl e ↦ elim (s c p e) [
    | inl shorter ↦
        rw (drop_slash, e)
          (drop_slash_ends fs rounds (fs.parent_path (c ∷ p)) s (omega (arith, shorter, h)))
    | inr own ↦ rw (drop_slash, e, own, drop_slash_root fs c p rounds (e, own)) (e, own)
  ]
]

RoundsEnd-cases :
    (fs : FileSystem) (r : Rounds)
    → RoundsEnd fs r
    → ((r ≡ ended (path_of r)) × Stopped fs (path_of r))
      ⊎ ((r ≡ still_going (path_of r)) × IsRoot fs (path_of r))
RoundsEnd-cases fs (ended p) h = inl (refl, h)
RoundsEnd-cases fs (still_going p) h = inr (refl, h)

-- When the parent of each path without a file name is shorter than the path or the path itself,
-- then after as many rounds as the normalized text of the path has bytes the loop of
-- normalize_path has ended, with an empty path or a path with a file name, or it is still going at
-- a path without a file name that is its own parent; normalize_path is this path.
pub normalize_path-ends :
    (fs : FileSystem) (p : Bytes)
    → Shortens fs
    → ((normalize_in fs (length (fs.lexically_normal p)) p ≡ ended (normalize_path fs p))
        × Stopped fs (normalize_path fs p))
      ⊎ ((normalize_in fs (length (fs.lexically_normal p)) p ≡ still_going (normalize_path fs p))
          × IsRoot fs (normalize_path fs p))
unfolding normalize_path normalize_in
normalize_path-ends fs p s =
    let q = fs.lexically_normal p in
    RoundsEnd-cases fs (drop_slash fs (length q) q)
      (drop_slash_ends fs (length q) q s (omega arith))

-- When the lexically normal form of a path is not empty, has no file name and is its own parent,
-- the loop of normalize_path is still going after any number of rounds, at this form.
pub normalize_path_root :
    (fs : FileSystem) (p : Bytes) (c : ℕ) (root : Bytes) (rounds : ℕ)
    → fs.lexically_normal p ≡ c ∷ root
    → IsRoot fs (c ∷ root)
    → normalize_in fs rounds p ≡ still_going (c ∷ root)
unfolding normalize_in
normalize_path_root fs p c root rounds e h =
    rw (normalize_in, e) (drop_slash_root fs c root rounds h)
