-- ===== src/Usage/Paths.antt =====
-- What `include_paths` and `link_paths` collect, and when their recursions end.
use mathlib.Core.Path.{subst}
use bpt.Prelude.{
  ℕ, zero, suc, ◌<◌, none, some, List, [], ◌∷◌, ◌≡◌, ◌⊎◌, inl, inr, refl, ◌∙◌, arith, length, Elem,
  Option-cases, Bytes,
}
use bpt.Usage.{
  Usage, Library, Reqs, get, Query, ok, nonesuch, diverges, both, concat_each, include_paths,
  link_paths, linkable,
}
use bpt.Usage.Map.{IsMap}
use bpt.Usage.Cycle.{find_usage_cycle, acyclic}
use bpt.Usage.Cycle.Graph.{Edge, IsTopological}
use bpt.Usage.Cycle.Correct.{acyclic-Ordered}

-- The query ended.
abbrev pub Ends {ℓ} : {A : Type ℓ} → Query A → Type 0
Ends (ok a) = Unit
Ends (nonesuch u) = Unit
Ends diverges = ⊥

Ends-both : (p q : Query (List Bytes)) → Ends p → Ends q → Ends (both p q)
Ends-both (ok p) (ok q) h k = tt
Ends-both (ok p) (nonesuch u) h k = tt
Ends-both (ok p) diverges h k = k
Ends-both (nonesuch u) q h k = tt
Ends-both diverges q h k = h

Ends-concat_each :
    (each : Usage → Query (List Bytes)) (us : List Usage)
    → ((u : Usage) → Elem u us → Ends (each u))
    → Ends (concat_each each us)
unfolding concat_each
Ends-concat_each each [] h = tt
Ends-concat_each each (u ∷ us) h =
    Ends-both (each u) (concat_each each us) (h u (inl refl))
      (Ends-concat_each each us (λ w m. h w (inr m)))

pub include_paths-some :
    (fuel : ℕ) (reqs : Reqs) (u : Usage) {lib : Library}
    → get reqs u ≡ some lib
    → include_paths (suc fuel) reqs u
      ≡ both (ok lib.include_paths) (concat_each (include_paths fuel reqs) lib.uses)
unfolding include_paths
include_paths-some fuel reqs u e = rw (e, include_paths)

pub include_paths-none :
    (fuel : ℕ) (reqs : Reqs) (u : Usage)
    → get reqs u ≡ none
    → include_paths (suc fuel) reqs u ≡ nonesuch u
unfolding include_paths
include_paths-none fuel reqs u e = rw (e, include_paths)

module _ (reqs : Reqs) where
  -- The recursion from a vertex of a topological list is no deeper than the list is long.
  Ends-topological :
      (order : List Usage) (u : Usage) (fuel : ℕ)
      → IsTopological reqs order
      → Elem u order ⊎ (get reqs u ≡ none)
      → length order < fuel
      → Ends (include_paths fuel reqs u)
  Ends-topological order u zero t m le = absurd (omega arith)
  Ends-topological order u (suc fuel) t (inr absent) le =
      rw (include_paths-none fuel reqs u absent) tt
  Ends-topological [] u (suc fuel) t (inl m) le = absurd m
  Ends-topological (x ∷ order) u (suc fuel) t (inl (inr m)) le =
      Ends-topological order u (suc fuel) t.2 (inl m) (omega arith)
  Ends-topological (x ∷ order) u (suc fuel) t (inl (inl e)) le = elim (Option-cases (get reqs u)) [
    | inl absent ↦ rw (include_paths-none fuel reqs u absent) tt
    | inr (lib, here) ↦ rw (include_paths-some fuel reqs u here) (
        Ends-both (ok lib.include_paths) _ tt (
          Ends-concat_each (include_paths fuel reqs) lib.uses
            (λ w m. Ends-topological order w fuel t.2 (used lib here w m) (omega arith))))
  ]
    where
      used :
          (lib : Library)
          → get reqs u ≡ some lib
          → (w : Usage) → Elem w lib.uses
          → Elem w order ⊎ (get reqs w ≡ none)
      used lib here w m = elim (Option-cases (get reqs w)) [
        | inl absent ↦ inr absent
        | inr (next, present) ↦
            inl (t.1 w (subst (λ y. Edge reqs y w) e (lib, here, m, (next, present))))
      ]

-- In a map that `verify_acyclic` accepts the recursion of `include_paths` ends from every usage:
-- all fuel from some number on gives its paths or the exception for a library that is missing.
pub include_paths-Ends :
    (reqs : Reqs)
    → IsMap reqs
    → find_usage_cycle reqs ≡ acyclic
    → (n : ℕ) × ((fuel : ℕ) (u : Usage) → n < fuel → Ends (include_paths fuel reqs u))
include_paths-Ends reqs h e =
    let (order, topological, all) = acyclic-Ordered reqs h e in
    (
      length order,
      λ fuel u le. elim (Option-cases (get reqs u)) [
        | inl absent ↦ Ends-topological reqs order u fuel topological (inr absent) le
        | inr (lib, here) ↦
            Ends-topological reqs order u fuel topological (inl (all u (lib, here))) le
      ],
    )

link_paths-some :
    (fuel : ℕ) (reqs : Reqs) (u : Usage) {lib : Library}
    → get reqs u ≡ some lib
    → link_paths (suc fuel) reqs u
      ≡ both (ok (linkable lib)) (
          both
            (concat_each (link_paths fuel reqs) lib.uses)
            (concat_each (link_paths fuel reqs) lib.links))
unfolding link_paths
link_paths-some fuel reqs u e = rw (e, link_paths)

-- The recursion of `link_paths` does not end from a library that uses nothing and links to itself,
-- whatever the fuel.
pub link_paths_self_link :
    (fuel : ℕ) (reqs : Reqs) (u : Usage) (lib : Library) (more_links : List Usage)
    → get reqs u ≡ some lib
    → lib.uses ≡ []
    → lib.links ≡ u ∷ more_links
    → link_paths fuel reqs u ≡ diverges
unfolding link_paths concat_each
link_paths_self_link zero reqs u lib more_links here no_uses self = refl
link_paths_self_link (suc fuel) reqs u lib more_links here no_uses self =
    link_paths-some fuel reqs u here
    ∙ rw (no_uses, self, link_paths_self_link fuel reqs u lib more_links here no_uses self)
