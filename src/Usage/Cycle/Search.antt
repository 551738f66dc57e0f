-- ===== src/Usage/Cycle/Search.antt =====
-- The invariant of `find_cycle`, and its preservation by the writes to the vertices.
use mathlib.Core.Path.{subst}
use mathlib.Core.Option
use bpt.Prelude.{
  Option, none, some, List, [], ◌∷◌, ◌≡◌, ◌≢◌, ◌↔◌, ◌⊎◌, inl, inr, refl, sym, ◌∙◌, Elem, arith,
  Bool-cases,
}
use bpt.Usage.{Usage, Reqs, usage_eq, usage_eq_iff}
use bpt.Usage.Cycle.{Status, unvisited, visiting, visited, VertexInfo, Vertices, assign}
use bpt.Usage.Cycle.Graph.{IsPresent, Edge, IsTopological}

abbrev pub status? : Vertices → Usage → Option Status
status? v u = Option.map (λ i. VertexInfo.status i) (v u)

pub assign_self : (v : Vertices) (u : Usage) (i : VertexInfo) → assign v u i u ≡ some i
unfolding assign
assign_self v u i = rw ((usage_eq_iff u u).1 refl)

pub assign_ne : (v : Vertices) {u w : Usage} (i : VertexInfo) → u ≢ w → assign v u i w ≡ v w
unfolding assign
assign_ne v {u} {w} i h = elim (Bool-cases (usage_eq u w)) [
  | inl e ↦ absurd (h ((usage_eq_iff u w).0 e))
  | inr e ↦ rw e
]

pub same_or : (u w : Usage) → (u ≡ w) ⊎ (u ≢ w)
same_or u w = elim (Bool-cases (usage_eq u w)) [
  | inl e ↦ inl ((usage_eq_iff u w).0 e)
  | inr e ↦ inr (λ h. cc ((usage_eq_iff u w).1 h))
]

-- A write changes the status of its vertex only.
pub status?-assign :
    (v : Vertices) (u : Usage) (i : VertexInfo) (w : Usage)
    → ((w ≡ u) × (status? (assign v u i) w ≡ some i.status))
      ⊎ ((w ≢ u) × (status? (assign v u i) w ≡ status? v w))
status?-assign v u i w = elim (same_or u w) [
  | inl e ↦
      inl (sym e, subst (λ x. status? (assign v u i) x ≡ some i.status) e (rw (assign_self v u i)))
  | inr n ↦ inr (λ e. n (sym e), rw (assign_ne v i n))
]

abbrev pub IsDistinct : List Usage → Type 0
IsDistinct [] = Unit
IsDistinct (u ∷ s) = (¬ Elem u s) × IsDistinct s

-- The stack holds the vertices that are being visited, innermost first; `order` those whose visit
-- is over, the last one first.
pub record Inv (reqs : Reqs) (v : Vertices) (stack order : List Usage) : Type 0 where
  pub present : (u : Usage) → IsPresent reqs u → status? v u ≢ none
  pub finished : (u : Usage) → Elem u order ↔ (status? v u ≡ some visited)
  pub current : (u : Usage) → Elem u stack ↔ (status? v u ≡ some visiting)
  pub distinct : IsDistinct stack
  pub topological : IsTopological reqs order

-- Each vertex of the stack uses the one above it, and its `next` says so; the topmost uses `u`.
abbrev pub PathTo : Reqs → Vertices → Usage → List Usage → Type 0
PathTo reqs v u [] = Unit
PathTo reqs v u (b ∷ stack) =
    Edge reqs b u × ((i : VertexInfo) × (v b ≡ some i) × (i.next ≡ u)) × PathTo reqs v b stack

module _ (reqs : Reqs) where
  pub PathTo-congr :
      (v v' : Vertices) (u : Usage) (stack : List Usage)
      → ((b : Usage) → Elem b stack → v' b ≡ v b)
      → PathTo reqs v u stack
      → PathTo reqs v' u stack
  PathTo-congr v v' u [] same p = tt
  PathTo-congr v v' u (b ∷ stack) same (edge, (i, e, n), rest) =
      (edge, (i, same b (inl refl) ∙ e, n), PathTo-congr v v' b stack (λ c m. same c (inr m)) rest)

  -- An unvisited vertex is put on the stack.
  pub Inv-enter :
      {v : Vertices} {stack order : List Usage} (u : Usage) (i : VertexInfo)
      → Inv reqs v stack order
      → status? v u ≡ some unvisited
      → i.status ≡ visiting
      → Inv reqs (assign v u i) (u ∷ stack) order
  Inv-enter {v} {stack} {order} u i inv fresh st = record {
    present = λ w p. ground (arith, status?-assign v u i w, inv.present w p);
    finished = λ w. ground (arith, status?-assign v u i w, inv.finished w);
    current = λ w. ground (arith, status?-assign v u i w, inv.current w);
    distinct = (λ m. ground (arith, (inv.current u).0 m), inv.distinct);
    topological = inv.topological;
  }

  -- A write of `next` alone.
  pub Inv-next :
      {v : Vertices} {stack order : List Usage} (u : Usage) (i : VertexInfo)
      → Inv reqs v stack order
      → status? v u ≡ some i.status
      → Inv reqs (assign v u i) stack order
  Inv-next {v} u i inv st = record {
    present = λ w p. ground (arith, status?-assign v u i w, inv.present w p);
    finished = λ w. ground (arith, status?-assign v u i w, inv.finished w);
    current = λ w. ground (arith, status?-assign v u i w, inv.current w);
    distinct = inv.distinct;
    topological = inv.topological;
  }

  -- The innermost vertex is finished, once all that it uses is.
  pub Inv-leave :
      {v : Vertices} {stack order : List Usage} (u : Usage) (i : VertexInfo)
      → Inv reqs v (u ∷ stack) order
      → ((w : Usage) → Edge reqs u w → Elem w order)
      → i.status ≡ visited
      → Inv reqs (assign v u i) stack (u ∷ order)
  Inv-leave {v} {stack} {order} u i inv used st = record {
    present = λ w p. ground (arith, status?-assign v u i w, inv.present w p);
    finished = λ w. ground (arith, status?-assign v u i w, inv.finished w);
    current = λ w. ground (arith, status?-assign v u i w, inv.current w, inv.distinct.0);
    distinct = inv.distinct.1;
    topological = (
      λ m. ground (arith, (inv.finished u).0 m, (inv.current u).0 (inl refl)),
      used,
      inv.topological,
    );
  }
