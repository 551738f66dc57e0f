-- ===== src/Usage/Cycle/Recover.antt =====
-- The walk along `next` from the vertex that closes a cycle comes back to it, through vertices of
-- which each uses the following one.
use mathlib.Core.Path.{subst}
use bpt.Prelude.{
  ℕ, zero, suc, ◌+◌, ◌≤◌, some, List, [], ◌∷◌, ◌≡◌, ◌≢◌, ◌⊎◌, inl, inr, refl, sym, ◌∙◌, arith,
  length, Elem,
}
use bpt.Usage.{Usage, Reqs, usage_eq_iff}
use bpt.Usage.Cycle.{VertexInfo, Vertices, follow}
use bpt.Usage.Cycle.Graph.{Edge, Chain, IsCycle}
use bpt.Usage.Cycle.Search.{PathTo, same_or}

module _ (reqs : Reqs) (v : Vertices) (start : Usage) where
  -- From `x` the walk takes at most `n` rounds to come back to the start.
  abbrev Returns : Usage → ℕ → Type 0
  Returns x n =
      (f : ℕ)
      → n ≤ f
      → (c : List Usage) × (follow f v start x ≡ some (x ∷ c)) × Chain reqs (x ∷ c) start

  abbrev Ready : Usage → ℕ → Type 0
  Ready x n = (x ≡ start) ⊎ Returns x n

  follow-end :
      (f : ℕ) (b : Usage) (i : VertexInfo)
      → v b ≡ some i
      → i.next ≡ start
      → follow (suc f) v start b ≡ some (b ∷ [])
  unfolding follow
  follow-end f b i e n = ground (arith, usage_eq_iff i.next start)

  follow-on :
      (f : ℕ) (b x : Usage) (i : VertexInfo) (c : List Usage)
      → v b ≡ some i
      → i.next ≡ x
      → x ≢ start
      → follow f v start x ≡ some c
      → follow (suc f) v start b ≡ some (b ∷ c)
  unfolding follow
  follow-on f b x i c e n ne h = ground (arith, usage_eq_iff i.next start)

  -- One vertex further back along the path.
  Returns-step :
      (b x : Usage) (n : ℕ)
      → Ready x n
      → Edge reqs b x
      → ((i : VertexInfo) × (v b ≡ some i) × (i.next ≡ x))
      → Returns b (suc n)
  Returns-step b x n ready edge (i, e, next) zero le = absurd (omega arith)
  Returns-step b x n ready edge (i, e, next) (suc f) le = elim (same_or x start) [
    | inl s ↦ ([], follow-end f b i e (next ∙ s), subst (Edge reqs b) s edge)
    | inr ne ↦ elim ready [
      | inl s ↦ absurd (ne s)
      | inr returns ↦
          let (c, run, chain) = returns f (omega arith) in
          (x ∷ c, follow-on f b x i (x ∷ c) e next ne run, (edge, chain))
    ]
  ]

  Returns-Elem :
      (stack : List Usage) (x : Usage) (n : ℕ)
      → Ready x n
      → PathTo reqs v x stack
      → Elem start stack
      → Returns start (length stack + n)
  Returns-Elem [] x n ready path m = absurd m
  Returns-Elem (b ∷ stack) x n ready (edge, next, path) (inl e) = λ f le.
      subst (λ y. (c : List Usage) × (follow f v start y ≡ some (y ∷ c)) × Chain reqs (y ∷ c) start)
        (sym e) (Returns-step b x n ready edge next f (omega arith))
  Returns-Elem (b ∷ stack) x n ready (edge, next, path) (inr m) = λ f le.
      Returns-Elem stack b (suc n) (inr (Returns-step b x n ready edge next)) path m f (omega arith)

  -- The do-while loop ends, with a cycle that begins at its start.
  pub follow_lem :
      (stack : List Usage) (f : ℕ)
      → Elem start stack
      → PathTo reqs v start stack
      → length stack ≤ f
      → (c : List Usage) × (follow f v start start ≡ some (start ∷ c)) × IsCycle reqs (start ∷ c)
  follow_lem stack f m path le = Returns-Elem stack start 0 (inl refl) path m f (omega arith)
