-- ===== src/Usage/Cycle/Correct.antt =====
-- `find_usage_cycle` decides whether the usage graph has a cycle, and returns one if it has.
use mathlib.Core.Path.{subst}
use bpt.Prelude.{
  ℕ, suc, ◌<◌, none, some, List, [], ◌∷◌, ◌≡◌, ◌⊎◌, inl, inr, refl, sym, arith, length, Elem, All,
  Bool-cases, ◌↔◌,
}
use bpt.Usage.{Usage, Library, Reqs, get, usage_eq, usage_eq_iff}
use bpt.Usage.Map.{IsMap, get-of_IsMap}
use bpt.Usage.Cycle.{
  unvisited, Vertices, assign, Outcome, clear, cyclic, fault, out_of_fuel, find_cycle, follow,
  blank_vertices, Verdict, acyclic, cycle, stuck, verdict_of, search_all, find_usage_cycle,
  close_cycle, verify_acyclic,
}
use bpt.Usage.Cycle.Graph.{IsPresent, Walk, IsCycle, Ordered, no_cycle, Walk-source, IsCycle-Walk}
use bpt.Usage.Cycle.Search.{status?, Inv}
use bpt.Usage.Cycle.Count.{count-le-length}
use bpt.Usage.Cycle.Visit.{Post, find_cycle-Finds}
use bpt.Usage.Cycle.Recover.{follow_lem}

-- What each answer claims of the graph.
abbrev pub Answers : Reqs → Verdict → Type 0
Answers reqs acyclic = (u : Usage) → ¬ Walk reqs u u
Answers reqs (cycle c) = IsCycle reqs c
Answers reqs stuck = ⊥

-- The same, with an order of the vertices in place of the absence of cycles.
abbrev Settles : Reqs → Verdict → Type 0
Settles reqs acyclic = Ordered reqs
Settles reqs (cycle c) = IsCycle reqs c
Settles reqs stuck = ⊥

abbrev keys : Reqs → List Usage
keys [] = []
keys ((u, lib) ∷ reqs) = u ∷ keys reqs

present-Elem : (reqs : Reqs) (u : Usage) → IsPresent reqs u → Elem u (keys reqs)
unfolding get
present-Elem [] u (lib, e) = cc
present-Elem ((k, l) ∷ reqs) u (lib, e) = elim (Bool-cases (usage_eq k u)) [
  | inl same ↦ inl (sym ((usage_eq_iff k u).0 same))
  | inr other ↦ inr (present-Elem reqs u (lib, rw other at e))
]

blank-status :
    (reqs : Reqs) (u : Usage)
    → ((status? (blank_vertices reqs) u ≡ none) × ¬ IsPresent reqs u)
      ⊎ (status? (blank_vertices reqs) u ≡ some unvisited)
unfolding blank_vertices assign get
blank-status [] u = inl (refl, λ p. cc p.1)
blank-status ((k, l) ∷ reqs) u = elim (Bool-cases (usage_eq k u)) [
  | inl same ↦ inr (ground arith)
  | inr other ↦ elim (blank-status reqs u) [
    | inl (e, absent) ↦ inl (ground arith, λ p. absent (p.0, rw other at p.1))
    | inr e ↦ inr (ground arith)
  ]
]

Inv-blank : (reqs : Reqs) → Inv reqs (blank_vertices reqs) [] []
Inv-blank reqs = record {
  present = λ u p. elim (blank-status reqs u) [
    | inl (e, absent) ↦ absurd (absent p)
    | inr e ↦ ground arith
  ];
  finished =
      λ u. (λ m. absurd m, λ h. elim (blank-status reqs u) [ inl (e, absent) ↦ cc | inr e ↦ cc ]);
  current =
      λ u. (λ m. absurd m, λ h. elim (blank-status reqs u) [ inl (e, absent) ↦ cc | inr e ↦ cc ]);
  distinct = tt;
  topological = tt;
}

module _ (reqs : Reqs) where
  -- Each vertex is finished or belongs to an entry that is still to come.
  record Loop (rest : Reqs) (v : Vertices) (order : List Usage) : Type 0 where
    inv : Inv reqs v [] order
    entries : All (λ e. get reqs e.0 ≡ some e.1) rest
    todo : (w : Usage) → IsPresent reqs w → Elem w order ⊎ Elem w (keys rest)

  round :
      (fuel : ℕ) (usage : Usage) (lib : Library) (rest : Reqs) (v : Vertices) (order : List Usage)
      (out : Outcome)
      → length reqs < fuel
      → Loop ((usage, lib) ∷ rest) v order
      → ((v' : Vertices) (more : List Usage)
          → Loop rest v' more
          → Settles reqs (search_all fuel reqs rest v'))
      → Post reqs v [] order usage out
      → Settles reqs (elim out [
        | clear v' ↦ search_all fuel reqs rest v'
        | cyclic u v' ↦ verdict_of (follow fuel v' u u)
        | fault ↦ stuck
        | out_of_fuel ↦ stuck
      ])
  round fuel usage lib rest v order (clear v') le l go p = go v' p.after (record {
    inv = p.inv;
    entries = l.entries.1;
    todo = λ w h. elim (l.todo w h) [
      | inl m ↦ inl (p.kept w m)
      | inr (inl e) ↦ inl (subst (λ x. Elem x p.after) (sym e) p.added)
      | inr (inr m) ↦ inr m
    ];
  })
  round fuel usage lib rest v order (cyclic u v') le l go (stack, m, path, size) =
      let (c, run, is_cycle) = follow_lem reqs v' u stack fuel m path (omega arith) in
      rw run is_cycle
  round fuel usage lib rest v order fault le l go p = p
  round fuel usage lib rest v order out_of_fuel le l go p = p

  search_all-Settles :
      (fuel : ℕ) (rest : Reqs) (v : Vertices) (order : List Usage)
      → length reqs < fuel
      → Loop rest v order
      → Settles reqs (search_all fuel reqs rest v)
  unfolding search_all
  search_all-Settles fuel [] v order le l =
      (order, l.inv.topological, λ u p. elim (l.todo u p) [ inl m ↦ m | inr m ↦ absurd m ])
  search_all-Settles fuel ((usage, lib) ∷ rest) v order le l =
      let counted = count-le-length reqs v in
      round fuel usage lib rest v order (find_cycle fuel reqs v usage lib) le l
        (λ v' more l'. search_all-Settles fuel rest v' more le l')
        (find_cycle-Finds reqs fuel v [] order usage lib l.entries.0 l.inv tt (omega arith)
          (omega arith))

find_usage_cycle-Settles : (reqs : Reqs) → IsMap reqs → Settles reqs (find_usage_cycle reqs)
unfolding find_usage_cycle
find_usage_cycle-Settles reqs h =
    search_all-Settles reqs (suc (length reqs)) reqs (blank_vertices reqs) [] (omega arith)
      (record {
        inv = Inv-blank reqs;
        entries = get-of_IsMap reqs h;
        todo = λ w p. inr (present-Elem reqs w p);
      })

Settles-Answers : (reqs : Reqs) (r : Verdict) → Settles reqs r → Answers reqs r
Settles-Answers reqs acyclic (order, topological, all) =
    λ u walk. no_cycle reqs order u topological (all u (Walk-source reqs walk)) walk
Settles-Answers reqs (cycle c) s = s
Settles-Answers reqs stuck s = s

-- Where no cycle is found the vertices of the map stand in a topological order.
pub acyclic-Ordered : (reqs : Reqs) → IsMap reqs → find_usage_cycle reqs ≡ acyclic → Ordered reqs
acyclic-Ordered reqs h e = subst (Settles reqs) e (find_usage_cycle-Settles reqs h)

-- For a map with distinct keys in order `find_usage_cycle` ends, without a look-up of a missing
-- vertex, and answers rightly: the list that it returns is a cycle of libraries of the map, each
-- using the next one and the last one using the first, and if it returns none, then no walk along
-- uses leads from a library of the map back to it.
pub find_usage_cycle_lem : (reqs : Reqs) → IsMap reqs → Answers reqs (find_usage_cycle reqs)
find_usage_cycle_lem reqs h =
    Settles-Answers reqs (find_usage_cycle reqs) (find_usage_cycle-Settles reqs h)

close_cycle_iff :
    (reqs : Reqs) (r : Verdict)
    → Answers reqs r
    → (close_cycle r ≡ acyclic) ↔ ((u : Usage) → ¬ Walk reqs u u)
close_cycle_iff reqs acyclic a = (λ _. a, λ _. refl)
close_cycle_iff reqs (cycle []) a = absurd a
close_cycle_iff reqs (cycle (u ∷ us)) a = (λ e. cc, λ n. absurd (n u (IsCycle-Walk reqs u us a)))
close_cycle_iff reqs stuck a = absurd a

-- Over a map with distinct keys in order `verify_acyclic` accepts exactly the maps in which no
-- walk along uses leads from a library back to it.
pub verify_acyclic_iff :
    (reqs : Reqs) → IsMap reqs → (verify_acyclic reqs ≡ acyclic) ↔ ((u : Usage) → ¬ Walk reqs u u)
unfolding verify_acyclic
verify_acyclic_iff reqs h =
    close_cycle_iff reqs (find_usage_cycle reqs) (find_usage_cycle_lem reqs h)
