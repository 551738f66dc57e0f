-- ===== src/Usage/Cycle/Graph.antt =====
-- What a cycle of the usage graph is, and why an order in which each vertex stands before those
-- that it uses excludes one.
use bpt.Prelude.{some, List, [], ◌∷◌, ◌≡◌, inl, inr, Elem}
use mathlib.Core.Path.{subst}
use bpt.Usage.{Usage, Library, Reqs, get}

abbrev pub IsPresent : Reqs → Usage → Type 0
IsPresent reqs u = (lib : Library) × (get reqs u ≡ some lib)

-- One library of the map uses another one of the map.
abbrev pub Edge : Reqs → Usage → Usage → Type 0
Edge reqs u w = (lib : Library) × (get reqs u ≡ some lib) × Elem w lib.uses × IsPresent reqs w

-- A walk of one or more edges.
pub data Walk (reqs : Reqs) : Usage → Usage → Type 0 where
  one : {u w : Usage} → Edge reqs u w → Walk reqs u w
  more : {u w x : Usage} → Edge reqs u w → Walk reqs w x → Walk reqs u x

-- The vertices of a list, each followed by one that it uses, and the last one by `end`.
abbrev pub Chain : Reqs → List Usage → Usage → Type 0
Chain reqs [] end = Unit
Chain reqs (u ∷ []) end = Edge reqs u end
Chain reqs (u ∷ w ∷ us) end = Edge reqs u w × Chain reqs (w ∷ us) end

-- A list that is not empty, and in which the last vertex uses the first.
abbrev pub IsCycle : Reqs → List Usage → Type 0
IsCycle reqs [] = ⊥
IsCycle reqs (u ∷ us) = Chain reqs (u ∷ us) u

module _ (reqs : Reqs) where
  -- Each vertex of the list uses only vertices that stand behind it, and stands there once.
  abbrev pub IsTopological : List Usage → Type 0
  IsTopological [] = Unit
  IsTopological (u ∷ order) =
      (¬ Elem u order) × ((w : Usage) → Edge reqs u w → Elem w order) × IsTopological order

  abbrev pub Ordered : Type 0
  Ordered =
      (order : List Usage) × IsTopological order × ((u : Usage) → IsPresent reqs u → Elem u order)

  Edge-Elem :
      (order : List Usage) (u w : Usage)
      → IsTopological order
      → Elem u order
      → Edge reqs u w
      → Elem w order
  Edge-Elem [] u w t m edge = elim m [ ]
  Edge-Elem (x ∷ order) u w t (inl e) edge = inr (t.1 w (subst (λ y. Edge reqs y w) e edge))
  Edge-Elem (x ∷ order) u w t (inr m) edge = inr (Edge-Elem order u w t.2 m edge)

  Walk-Elem :
      (order : List Usage) {u w : Usage}
      → IsTopological order
      → Walk reqs u w
      → Elem u order
      → Elem w order
  Walk-Elem order {u} {w} t (one edge) m = Edge-Elem order u w t m edge
  Walk-Elem order {u} t (more {w = y} edge walk) m =
      Walk-Elem order t walk (Edge-Elem order u y t m edge)

  -- A walk from the first vertex of a topological list ends behind it.
  Walk-tail :
      (x : Usage) (order : List Usage) {u w : Usage}
      → IsTopological (x ∷ order)
      → u ≡ x
      → Walk reqs u w
      → Elem w order
  Walk-tail x order {u} {w} t e (one edge) = t.1 w (subst (λ y. Edge reqs y w) e edge)
  Walk-tail x order {u} t e (more {w = y} edge walk) =
      Walk-Elem order t.2 walk (t.1 y (subst (λ z. Edge reqs z y) e edge))

  -- No walk leads from a vertex of a topological list back to it.
  pub no_cycle :
      (order : List Usage) (u : Usage) → IsTopological order → Elem u order → ¬ Walk reqs u u
  no_cycle [] u t m walk = m
  no_cycle (x ∷ order) u t (inl e) walk =
      t.0 (subst (λ y. Elem y order) e (Walk-tail x order t e walk))
  no_cycle (x ∷ order) u t (inr m) walk = no_cycle order u t.2 m walk

  pub Walk-source : {u w : Usage} → Walk reqs u w → IsPresent reqs u
  Walk-source (one edge) = (edge.0, edge.1)
  Walk-source (more edge walk) = (edge.0, edge.1)

  -- The vertices of a cycle are a walk from the first one back to it.
  Chain-Walk :
      (u : Usage) (us : List Usage) (end : Usage) → Chain reqs (u ∷ us) end → Walk reqs u end
  Chain-Walk u [] end c = one c
  Chain-Walk u (w ∷ us) end c = more c.0 (Chain-Walk w us end c.1)

  pub IsCycle-Walk : (u : Usage) (us : List Usage) → IsCycle reqs (u ∷ us) → Walk reqs u u
  IsCycle-Walk u us c = Chain-Walk u us u c
