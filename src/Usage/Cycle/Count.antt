-- ===== src/Usage/Cycle/Count.antt =====
-- How many keys of the map are unvisited: the measure by which the search ends.
use mathlib.Core.Path.{subst}
use bpt.Prelude.{
  ℕ, ◌+◌, ◌≤◌, ◌<◌, Option, none, some, [], ◌∷◌, ◌≡◌, inl, inr, sym, arith, Bool-cases, length,
}
use bpt.Usage.{Usage, Library, Reqs, get, usage_eq, usage_eq_iff}
use bpt.Usage.Cycle.{Status, unvisited, visiting, visited, VertexInfo, Vertices, assign}
use bpt.Usage.Cycle.Search.{status?, status?-assign}

abbrev fresh : Option Status → ℕ
fresh (some unvisited) = 1
fresh (some visiting) = 0
fresh (some visited) = 0
fresh none = 0

pub count : Reqs → Vertices → ℕ
count [] v = 0
count ((u, lib) ∷ reqs) v = fresh (status? v u) + count reqs v

count_mono :
    (reqs : Reqs) (v v' : Vertices)
    → ((w : Usage) → fresh (status? v' w) ≤ fresh (status? v w))
    → count reqs v' ≤ count reqs v
unfolding count
count_mono [] v v' h = omega arith
count_mono ((u, lib) ∷ reqs) v v' h = omega (arith, h u, count_mono reqs v v' h)

count_strict :
    (reqs : Reqs) (v v' : Vertices) (u : Usage) {lib : Library}
    → get reqs u ≡ some lib
    → ((w : Usage) → fresh (status? v' w) ≤ fresh (status? v w))
    → fresh (status? v' u) < fresh (status? v u)
    → count reqs v' < count reqs v
unfolding count get
count_strict [] v v' u e h lt = cc
count_strict ((k, l) ∷ reqs) v v' u {lib} e h lt = elim (Bool-cases (usage_eq k u)) [
  | inl same ↦
      let at_k : fresh (status? v' k) < fresh (status? v k) =
        subst (λ x. fresh (status? v' x) < fresh (status? v x)) (sym ((usage_eq_iff k u).0 same))
          lt in
      omega (arith, at_k, count_mono reqs v v' h)
  | inr other ↦
      let below : get reqs u ≡ some lib = rw other at e in
      omega (arith, h k, count_strict reqs v v' u below h lt)
]

pub count-assign-le :
    (reqs : Reqs) (v : Vertices) (u : Usage) (i : VertexInfo)
    → fresh (some i.status) ≤ fresh (status? v u)
    → count reqs (assign v u i) ≤ count reqs v
count-assign-le reqs v u i h =
    count_mono reqs v (assign v u i) (λ w. ground (arith, status?-assign v u i w))

pub count-assign-lt :
    (reqs : Reqs) (v : Vertices) (u : Usage) (i : VertexInfo) {lib : Library}
    → get reqs u ≡ some lib
    → status? v u ≡ some unvisited
    → i.status ≡ visiting
    → count reqs (assign v u i) < count reqs v
count-assign-lt reqs v u i e was st =
    count_strict reqs v (assign v u i) u e (λ w. ground (arith, status?-assign v u i w))
      (ground (arith, status?-assign v u i u))

pub count-le-length : (reqs : Reqs) (v : Vertices) → count reqs v ≤ length reqs
unfolding count
count-le-length [] v = omega arith
count-le-length ((u, lib) ∷ reqs) v = ground (arith, count-le-length reqs v)
