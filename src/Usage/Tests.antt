-- ===== src/Usage/Tests.antt =====
-- Runs over concrete maps of usage requirements, and the theorems at them.
use bpt.Prelude.{ℕ, ◌<◌, ◌≡◌, ◌↔◌, refl, [], ◌∷◌, codes, Elem}
use bpt.Usage.{
  Usage, Library, Reqs, get, add, blank_library, include_paths, link_paths, ok, diverges, usage_lt,
}
use bpt.Usage.Map.{IsMap, Adds, add-Adds}
use bpt.Usage.Cycle.{find_usage_cycle, verify_acyclic, acyclic, cycle}
use bpt.Usage.Cycle.Graph.{Walk}
use bpt.Usage.Cycle.Correct.{Answers, find_usage_cycle_lem, verify_acyclic_iff}
use bpt.Usage.Paths.{include_paths-Ends, Ends, link_paths_self_link}
use bpt.Usage.Reach.{Provided, include_paths_iff}

abbrev a_a : Usage
a_a = record { namespace_ = codes "a"; name = codes "a" }

abbrev b_b : Usage
b_b = record { namespace_ = codes "b"; name = codes "b" }

abbrev c_c : Usage
c_c = record { namespace_ = codes "c"; name = codes "c" }

abbrev lib_a : Library
lib_a = record blank_library { uses = b_b ∷ []; include_paths = codes "inc/a" ∷ [] }

abbrev lib_b : Library
lib_b = record blank_library { include_paths = codes "inc/b" ∷ [] }

abbrev lib_c : Library
lib_c = record blank_library { uses = b_b ∷ c_c ∷ [] }

abbrev lib_linked : Library
lib_linked = record blank_library { links = c_c ∷ [] }

abbrev chain : Reqs
chain = (a_a, lib_a) ∷ (b_b, lib_b) ∷ []

abbrev looped : Reqs
looped = (a_a, lib_a) ∷ (b_b, lib_b) ∷ (c_c, lib_c) ∷ []

abbrev linked : Reqs
linked = (c_c, lib_linked) ∷ []

chain-IsMap : IsMap chain
unfolding usage_lt
chain-IsMap = ((refl, tt), (tt, tt))

looped-IsMap : IsMap looped
unfolding usage_lt
looped-IsMap = ((refl, (refl, tt)), ((refl, tt), (tt, tt)))

chain-acyclic : find_usage_cycle chain ≡ acyclic
unfolding find_usage_cycle
chain-acyclic = refl

looped-cycle : find_usage_cycle looped ≡ cycle (c_c ∷ [])
unfolding find_usage_cycle
looped-cycle = refl

chain_paths : include_paths 3 chain a_a ≡ ok (codes "inc/a" ∷ codes "inc/b" ∷ [])
unfolding include_paths
chain_paths = refl

linked-acyclic : find_usage_cycle linked ≡ acyclic
unfolding find_usage_cycle
linked-acyclic = refl

-- The search finds the library that uses itself.
find_usage_cycle_lem_example : Answers looped (find_usage_cycle looped)
find_usage_cycle_lem_example = find_usage_cycle_lem looped looped-IsMap

verify_acyclic_iff_example : (verify_acyclic chain ≡ acyclic) ↔ ((u : Usage) → ¬ Walk chain u u)
verify_acyclic_iff_example = verify_acyclic_iff chain chain-IsMap

include_paths-Ends_example :
    (n : ℕ) × ((fuel : ℕ) (u : Usage) → n < fuel → Ends (include_paths fuel chain u))
include_paths-Ends_example = include_paths-Ends chain chain-IsMap chain-acyclic

include_paths_iff_example :
    Elem (codes "inc/b") (codes "inc/a" ∷ codes "inc/b" ∷ []) ↔ Provided chain a_a (codes "inc/b")
include_paths_iff_example =
    include_paths_iff chain 3 a_a (codes "inc/a" ∷ codes "inc/b" ∷ []) (codes "inc/b") chain_paths

add-Adds_example : Adds chain c_c lib_c (add chain c_c lib_c)
add-Adds_example = add-Adds chain c_c lib_c chain-IsMap

link_paths_self_link_example : link_paths 100 linked c_c ≡ diverges
unfolding get
link_paths_self_link_example = link_paths_self_link 100 linked c_c lib_linked [] refl refl refl
