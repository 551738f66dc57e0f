-- ===== src/Usage/Cycle.antt =====
-- `find_cycle`, `find_usage_cycle` and `verify_acyclic` of src/bpt/usage_reqs.cpp: a depth-first
-- search that colours the vertices, and the walk along `next` that recovers a cycle.
pub mod Graph
pub mod Search
pub mod Count
pub mod Visit
pub mod Recover
pub mod Correct
use bpt.Prelude.{
  ℕ, zero, suc, Bool, true, false, Option, none, some, List, [], ◌∷◌, ◌++◌, if◌then◌else◌, length,
}
use bpt.Usage.{Usage, Library, Reqs, usage_eq, get}

pub data Status : Type 0 where
  unvisited visiting visited : Status

pub record VertexInfo : Type 0 where
  pub status : Status
  pub next : Usage

-- std::map<lm::usage, vertex_info>; `none` is a key that the map lacks.
abbrev pub Vertices : Type 0
Vertices = Usage → Option VertexInfo

unfoldable pub assign : Vertices → Usage → VertexInfo → Vertices
unfolding usage_eq
assign v u info w = if usage_eq u w then some info else v w

-- `fault` is a use of `vertices.find(u)->second` where the map lacks `u`.
pub data Outcome : Type 0 where
  clear : Vertices → Outcome
  cyclic : Usage → Vertices → Outcome
  fault out_of_fuel : Outcome

abbrev set_status : Vertices → Usage → Status → (Vertices → Outcome) → Outcome
set_status v u st k = elim (v u) [
  | none ↦ fault
  | some info ↦ k (assign v u (record info { status = st }))
]

abbrev set_next : Vertices → Usage → Usage → (Vertices → Outcome) → Outcome
set_next v u n k = elim (v u) [
  | none ↦ fault
  | some info ↦ k (assign v u (record info { next = n }))
]

-- Go on after a search that found no cycle.
abbrev pub on_clear : Outcome → (Vertices → Outcome) → Outcome
on_clear (clear v) k = k v
on_clear (cyclic u v) k = cyclic u v
on_clear fault k = fault
on_clear out_of_fuel k = out_of_fuel

-- The loop over `lib.uses`, and what follows it; `find` searches a child vertex.
unfoldable pub search_uses :
    Reqs → (Vertices → Usage → Library → Outcome) → Usage → List Usage → Vertices → Outcome
unfolding assign get
search_uses reqs find usage [] v = set_status v usage visited clear
search_uses reqs find usage (next ∷ uses) v = set_next v usage next λ v'. elim (get reqs next) [
  | none ↦ search_uses reqs find usage uses v'
  | some next_lib ↦ on_clear (find v' next next_lib) (search_uses reqs find usage uses)
]

unfoldable pub find_cycle : ℕ → Reqs → Vertices → Usage → Library → Outcome
unfolding search_uses
find_cycle zero reqs v usage lib = out_of_fuel
find_cycle (suc fuel) reqs v usage lib = elim (v usage) [
  | none ↦ fault
  | some info ↦ elim info.status [
    | visited ↦ clear v
    | visiting ↦ cyclic usage v
    | unvisited ↦
        set_status v usage visiting (search_uses reqs (find_cycle fuel reqs) usage lib.uses)
  ]
]

-- The map of default-constructed entries, one for each key.
pub blank_vertices : Reqs → Vertices
unfolding assign
blank_vertices [] w = none
blank_vertices ((u, lib) ∷ reqs) w =
    assign (blank_vertices reqs) u
      (record { status = unvisited; next = record { namespace_ = []; name = [] } }) w

-- do { cycle.push_back(cur); cur = vertices.find(cur)->second.next; } while (cur != start)
unfoldable pub follow : ℕ → Vertices → Usage → Usage → Option (List Usage)
unfolding usage_eq
follow zero v start cur = none
follow (suc fuel) v start cur = elim (v cur) [
  | none ↦ none
  | some info ↦
      let rest = follow fuel v start info.next in
      if usage_eq info.next start
      then some (cur ∷ [])
      else elim rest [ none ↦ none | some c ↦ some (cur ∷ c) ]
]

-- The result of `find_usage_cycle`; `stuck` is a fault or an end of the fuel in one of its loops.
pub data Verdict : Type 0 where
  acyclic : Verdict
  cycle : List Usage → Verdict
  stuck : Verdict

abbrev pub verdict_of : Option (List Usage) → Verdict
verdict_of none = stuck
verdict_of (some c) = cycle c

-- The loop over the entries; `fuel` bounds the depth of each search and the length of a cycle.
unfoldable pub search_all : ℕ → Reqs → Reqs → Vertices → Verdict
unfolding find_cycle follow
search_all fuel reqs [] v = acyclic
search_all fuel reqs ((usage, lib) ∷ rest) v = elim (find_cycle fuel reqs v usage lib) [
  | clear v' ↦ search_all fuel reqs rest v'
  | cyclic u v' ↦ verdict_of (follow fuel v' u u)
  | fault ↦ stuck
  | out_of_fuel ↦ stuck
]

unfoldable pub find_usage_cycle : Reqs → Verdict
unfolding search_all blank_vertices
find_usage_cycle reqs = search_all (suc (length reqs)) reqs reqs (blank_vertices reqs)

-- The cycle with its first vertex once more at the end; an empty one would fail the assertion.
abbrev pub close_cycle : Verdict → Verdict
close_cycle acyclic = acyclic
close_cycle (cycle []) = stuck
close_cycle (cycle (u ∷ us)) = cycle ((u ∷ us) ++ u ∷ [])
close_cycle stuck = stuck

-- `verify_acyclic`: `cycle` is the exception.
unfoldable pub verify_acyclic : Reqs → Verdict
unfolding find_usage_cycle
verify_acyclic reqs = close_cycle (find_usage_cycle reqs)
