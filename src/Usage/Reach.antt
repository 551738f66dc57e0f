-- ===== src/Usage/Reach.antt =====
-- Which paths `include_paths` collects: those of all libraries that the usage reaches.
use mathlib.Core.Path.{subst}
use mathlib.Core.Option.{some-injective}
use bpt.Prelude.{
  ℕ, zero, suc, some, List, [], ◌∷◌, ◌++◌, ◌≡◌, ◌⊎◌, ◌↔◌, inl, inr, refl, sym, ap, ◌∙◌, Elem,
  Elem-append, Option-cases, Bytes,
}
use bpt.Usage.{
  Usage, Library, Reqs, get, Query, ok, nonesuch, diverges, both, concat_each, include_paths,
}
use bpt.Usage.Cycle.Graph.{IsPresent, Edge, Walk, one, more}
use bpt.Usage.Paths.{include_paths-some, include_paths-none}

-- The usage itself, or one that a walk along uses leads to.
abbrev pub Reaches : Reqs → Usage → Usage → Type 0
Reaches reqs u w = (u ≡ w) ⊎ Walk reqs u w

Elem-both :
    (p q : Query (List Bytes)) (r : List Bytes)
    → both p q ≡ ok r
    → (ps : List Bytes) × (qs : List Bytes) × (p ≡ ok ps) × (q ≡ ok qs) × (r ≡ ps ++ qs)
Elem-both (ok p) (ok q) r h = (p, q, refl, refl, cc)
Elem-both (ok p) (nonesuch u) r h = cc
Elem-both (ok p) diverges r h = cc
Elem-both (nonesuch u) q r h = cc
Elem-both diverges q r h = cc

-- One of the queries returned the path.
abbrev Collected : (Usage → Query (List Bytes)) → List Usage → Bytes → Type 0
Collected each us p = (w : Usage) × Elem w us × (ps : List Bytes) × (each w ≡ ok ps) × Elem p ps

-- If all queries return, their results together hold exactly the paths of each.
Elem-concat_each :
    (each : Usage → Query (List Bytes)) (us : List Usage) (r : List Bytes) (p : Bytes)
    → concat_each each us ≡ ok r
    → Elem p r ↔ Collected each us p
unfolding concat_each
Elem-concat_each each [] r p h =
    let empty : r ≡ [] = cc in (λ m. absurd (subst (Elem p) empty m), λ c. absurd c.1)
Elem-concat_each each (u ∷ us) r p h =
    let (ps, qs, first, others, e) = Elem-both (each u) (concat_each each us) r h in
    let (into, back) = Elem-concat_each each us qs p others in
    (
      λ m. elim ((Elem-append p ps qs).0 (subst (Elem p) e m)) [
        | inl here ↦ (u, inl refl, ps, first, here)
        | inr there ↦ let (w, mw, rs, run, mp) = into there in (w, inr mw, rs, run, mp)
      ],
      λ (w, mw, rs, run, mp). subst (Elem p) (sym e) (
          (Elem-append p ps qs).1 (elim mw [
            | inl same ↦
                let own : rs ≡ ps = cc (run, first, ap each same) in inl (subst (Elem p) own mp)
            | inr later ↦ inr (back (w, later, rs, run, mp))
          ])),
    )

-- If all queries return, so does each.
ok-concat_each :
    (each : Usage → Query (List Bytes)) (us : List Usage) (r : List Bytes) (w : Usage)
    → concat_each each us ≡ ok r
    → Elem w us
    → (ps : List Bytes) × (each w ≡ ok ps)
unfolding concat_each
ok-concat_each each [] r w h m = absurd m
ok-concat_each each (u ∷ us) r w h m =
    let (ps, qs, first, others, e) = Elem-both (each u) (concat_each each us) r h in
    elim m [
      | inl same ↦ (ps, ap each same ∙ first)
      | inr later ↦ ok-concat_each each us qs w others later
    ]

module _ (reqs : Reqs) where
  ok-IsPresent :
      (fuel : ℕ) (u : Usage) (r : List Bytes) → include_paths fuel reqs u ≡ ok r → IsPresent reqs u
  unfolding include_paths
  ok-IsPresent zero u r h = cc
  ok-IsPresent (suc fuel) u r h = elim (Option-cases (get reqs u)) [
    | inl absent ↦ cc (h, include_paths-none fuel reqs u absent)
    | inr present ↦ present
  ]

  -- The path belongs to a library that the usage reaches.
  abbrev pub Provided : Usage → Bytes → Type 0
  Provided u p =
      (w : Usage) × Reaches reqs u w
      × (lib : Library) × (get reqs w ≡ some lib)
      × Elem p lib.include_paths

  Provided-Edge : (u y : Usage) (p : Bytes) → Edge reqs u y → Provided y p → Provided u p
  Provided-Edge u y p edge (w, inl e, lib, at_w, m) =
      (w, inr (one (subst (Edge reqs u) e edge)), lib, at_w, m)
  Provided-Edge u y p edge (w, inr walk, lib, at_w, m) = (w, inr (more edge walk), lib, at_w, m)

  Walk-first : {u w : Usage} → Walk reqs u w → (y : Usage) × Edge reqs u y × Reaches reqs y w
  Walk-first {w} (one edge) = (w, edge, inl refl)
  Walk-first (more {w = y} edge walk) = (y, edge, inr walk)

  -- When `include_paths` returns, its result holds exactly the include paths of the library itself
  -- and of every library that a walk along uses leads to.
  pub include_paths_iff :
      (fuel : ℕ) (u : Usage) (r : List Bytes) (p : Bytes)
      → include_paths fuel reqs u ≡ ok r
      → Elem p r ↔ Provided u p
  unfolding include_paths
  include_paths_iff zero u r p h = cc
  include_paths_iff (suc fuel) u r p h =
      let (lib, here) = ok-IsPresent (suc fuel) u r h in
      let (own, qs, e_own, rest, e) =
        Elem-both (ok lib.include_paths) (concat_each (include_paths fuel reqs) lib.uses) r
          (sym (include_paths-some fuel reqs u here) ∙ h) in
      let own_paths : own ≡ lib.include_paths = cc in
      let (into, back) = Elem-concat_each (include_paths fuel reqs) lib.uses qs p rest in
      (
        λ m. elim ((Elem-append p own qs).0 (subst (Elem p) e m)) [
          | inl mine ↦ (u, inl refl, lib, here, subst (Elem p) own_paths mine)
          | inr theirs ↦
              let (w, mw, ps, run, mp) = into theirs in
              let present = ok-IsPresent fuel w ps run in
              Provided-Edge u w p (lib, here, mw, present)
                ((include_paths_iff fuel w ps p run).0 mp)
        ],
        λ (w, reach, wlib, at_w, mp). subst (Elem p) (sym e) (
            (Elem-append p own qs).1 (elim reach [
              | inl same ↦
                  let libs : some wlib ≡ some lib = sym at_w ∙ ap (get reqs) (sym same) ∙ here in
                  inl (
                    subst (Elem p)
                      (ap (λ l. Library.include_paths l) (some-injective wlib lib libs)
                        ∙ sym own_paths)
                      mp)
              | inr walk ↦
                  let (y, (ulib, at_u, my, present), onward) = Walk-first walk in
                  let my' =
                    subst (λ l. Elem y (Library.uses l)) (some-injective ulib lib (sym at_u ∙ here))
                      my in
                  let (ps, run) = ok-concat_each (include_paths fuel reqs) lib.uses qs y rest my' in
                  inr (
                    back (
                      y,
                      my',
                      ps,
                      run,
                      (include_paths_iff fuel y ps p run).1 (w, onward, wlib, at_w, mp),
                    ))
            ])),
      )
