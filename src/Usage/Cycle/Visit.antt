-- ===== src/Usage/Cycle/Visit.antt =====
-- What one search of a vertex achieves, by induction on the fuel and on the uses of each library:
-- it ends, and either finishes the vertex or leaves a cycle in the stack.
use bpt.Prelude.{
  ℕ, zero, suc, ◌+◌, ◌≤◌, ◌<◌, none, some, List, [], ◌∷◌, ◌≡◌, ◌⊎◌, inl, inr, refl, sym, ap, ◌∙◌,
  arith, Option-cases, length, Elem,
}
use mathlib.Core.Path.{subst}
use mathlib.Core.Option.{some-injective}
use bpt.Usage.{Usage, Library, Reqs, get}
use bpt.Usage.Cycle.{
  Status, on_clear, unvisited, visiting, visited, VertexInfo, Vertices, assign, Outcome, clear,
  cyclic, fault, out_of_fuel, search_uses, find_cycle,
}
use bpt.Usage.Cycle.Graph.{Edge}
use bpt.Usage.Cycle.Search.{
  status?, assign_self, assign_ne, Inv, PathTo, PathTo-congr, Inv-enter, Inv-next, Inv-leave,
}
use bpt.Usage.Cycle.Count.{count, count-assign-le, count-assign-lt}

module _ (reqs : Reqs) (find : Vertices → Usage → Library → Outcome) (usage : Usage) where
  search_uses-nil :
      (v : Vertices) {i : VertexInfo}
      → v usage ≡ some i
      → search_uses reqs find usage [] v ≡ clear (assign v usage (record i { status = visited }))
  unfolding search_uses
  search_uses-nil v e = ground arith

  search_uses-none :
      (v : Vertices) (next : Usage) (uses : List Usage) {i : VertexInfo}
      → v usage ≡ some i
      → get reqs next ≡ none
      → search_uses reqs find usage (next ∷ uses) v
        ≡ search_uses reqs find usage uses (assign v usage (record i { next = next }))
  unfolding search_uses
  search_uses-none v next uses e absent = ground arith

  search_uses-some :
      (v : Vertices) (next : Usage) (uses : List Usage) {i : VertexInfo} {lib : Library}
      → v usage ≡ some i
      → get reqs next ≡ some lib
      → search_uses reqs find usage (next ∷ uses) v
        ≡ on_clear
            (find (assign v usage (record i { next = next })) next lib)
            (search_uses reqs find usage uses)
  unfolding search_uses
  search_uses-some v next uses e here = ground arith

module _ (reqs : Reqs) where
  -- A stack of vertices, each used by the one below it, whose topmost vertex uses `u` of the stack.
  abbrev pub Found : Vertices → Usage → Type 0
  Found v u =
      (stack : List Usage) × Elem u stack × PathTo reqs v u stack × (length stack ≤ length reqs)

  pub record Cleared (v : Vertices) (stack order : List Usage) (usage : Usage) (v' : Vertices)
      : Type 0 where
    pub after : List Usage
    pub inv : Inv reqs v' stack after
    pub added : Elem usage after
    pub kept : (u : Usage) → Elem u order → Elem u after
    pub same : (b : Usage) → Elem b stack → v' b ≡ v b
    pub fewer : count reqs v' ≤ count reqs v

  abbrev pub Post : Vertices → List Usage → List Usage → Usage → Outcome → Type 0
  Post v stack order usage (clear v') = Cleared v stack order usage v'
  Post v stack order usage (cyclic u v') = Found v' u
  Post v stack order usage fault = ⊥
  Post v stack order usage out_of_fuel = ⊥

  Post-earlier :
      {v w : Vertices} (stack order more : List Usage) (usage : Usage) (out : Outcome)
      → ((b : Usage) → Elem b stack → w b ≡ v b)
      → ((u : Usage) → Elem u order → Elem u more)
      → count reqs w ≤ count reqs v
      → Post w stack more usage out
      → Post v stack order usage out
  Post-earlier stack order more usage (clear v') same kept fewer p = record {
    after = p.after;
    inv = p.inv;
    added = p.added;
    kept = λ u m. p.kept u (kept u m);
    same = λ b m. p.same b m ∙ same b m;
    fewer = omega (arith, p.fewer);
  }
  Post-earlier stack order more usage (cyclic u v') same kept fewer p = p
  Post-earlier stack order more usage fault same kept fewer p = p
  Post-earlier stack order more usage out_of_fuel same kept fewer p = p

  -- What a search with fuel for `n` unvisited keys achieves at every vertex.
  abbrev Finds : ℕ → (Vertices → Usage → Library → Outcome) → Type 0
  Finds n find =
      (v : Vertices) (stack order : List Usage) (usage : Usage) (lib : Library)
      → get reqs usage ≡ some lib
      → Inv reqs v stack order
      → PathTo reqs v usage stack
      → length stack + count reqs v ≤ length reqs
      → count reqs v < n
      → Post v stack order usage (find v usage lib)

  module _ (n : ℕ) (find : Vertices → Usage → Library → Outcome) (finds : Finds n find)
      (stack : List Usage) (usage : Usage) (lib : Library) (here : get reqs usage ≡ some lib) where
    -- The loop over the uses that are left; all earlier ones are finished.
    record Loop (uses : List Usage) (v : Vertices) (order : List Usage) : Type 0 where
      inv : Inv reqs v (usage ∷ stack) order
      path : PathTo reqs v usage stack
      part : (w : Usage) → Elem w uses → Elem w lib.uses
      rest : (w : Usage) → Edge reqs usage w → Elem w order ⊎ Elem w uses
      fits : suc (length stack) + count reqs v ≤ length reqs
      fuel : count reqs v < n

    -- The vertex of the stack's top: it is being visited, and stands nowhere else in the stack.
    top_info :
        (uses : List Usage) (v : Vertices) (order : List Usage)
        → Loop uses v order
        → (i : VertexInfo) × (v usage ≡ some i) × (i.status ≡ visiting)
    top_info uses v order l = elim (Option-cases (v usage)) [
      | inl e ↦ ground (arith, (l.inv.current usage).0 (inl refl))
      | inr (i, e) ↦ (i, e, ground (arith, (l.inv.current usage).0 (inl refl)))
    ]

    others :
        (uses : List Usage) (v : Vertices) (order : List Usage) (i : VertexInfo)
        → Loop uses v order
        → (b : Usage) → Elem b stack
        → assign v usage i b ≡ v b
    others uses v order i l b m =
        assign_ne v i (λ e. l.inv.distinct.0 (subst (λ x. Elem x stack) (sym e) m))

    finish :
        (v : Vertices) (order : List Usage)
        → Loop [] v order
        → Post v stack order usage (search_uses reqs find usage [] v)
    finish v order l =
        let (i, e, st) = top_info [] v order l in
        let done = record i { status = visited } in
        rw (search_uses-nil reqs find usage v e) (record {
          after = usage ∷ order;
          inv =
              Inv-leave reqs usage done l.inv
                (λ w edge. elim (l.rest w edge) [ inl m ↦ m | inr m ↦ absurd m ]) refl;
          added = inl refl;
          kept = λ u m. inr m;
          same = others [] v order done l;
          fewer = count-assign-le reqs v usage done (omega arith);
        })

    -- The child is searched; the loop goes on over the rest.
    child :
        (next : Usage) (uses : List Usage) (v : Vertices) (order : List Usage) (out : Outcome)
        → Loop (next ∷ uses) v order
        → ((v' : Vertices) (more : List Usage)
            → Loop uses v' more
            → Post v' stack more usage (search_uses reqs find usage uses v'))
        → Post v (usage ∷ stack) order next out
        → Post v stack order usage (on_clear out (search_uses reqs find usage uses))
    child next uses v order (clear v') l go p =
        Post-earlier stack order p.after usage _ (λ b m. p.same b (inr m)) p.kept p.fewer
          (go v' p.after (record {
            inv = p.inv;
            path = PathTo-congr reqs v v' usage stack (λ b m. p.same b (inr m)) l.path;
            part = λ w m. l.part w (inr m);
            rest = λ w edge. elim (l.rest w edge) [
              | inl m ↦ inl (p.kept w m)
              | inr (inl e) ↦ inl (subst (λ x. Elem x p.after) (sym e) p.added)
              | inr (inr m) ↦ inr m
            ];
            fits = omega (arith, p.fewer, l.fits);
            fuel = omega (arith, p.fewer, l.fuel);
          }))
    child next uses v order (cyclic u v') l go p = p
    child next uses v order fault l go p = p
    child next uses v order out_of_fuel l go p = p

    -- A use that the map lacks is passed over.
    missing :
        (next : Usage) (uses : List Usage) (v : Vertices) (order : List Usage)
        → Loop (next ∷ uses) v order
        → get reqs next ≡ none
        → Loop uses v order
    missing next uses v order l e = record {
      inv = l.inv;
      path = l.path;
      part = λ w m. l.part w (inr m);
      rest = λ w edge. elim (l.rest w edge) [
        | inl m ↦ inl m
        | inr (inl same) ↦ absurd (cc (edge.3.1, ap (get reqs) same, e))
        | inr (inr m) ↦ inr m
      ];
      fits = l.fits;
      fuel = l.fuel;
    }

    pointed-le :
        (uses : List Usage) (v : Vertices) (order : List Usage) (i : VertexInfo)
        → Loop uses v order
        → i.status ≡ visiting
        → count reqs (assign v usage i) ≤ count reqs v
    pointed-le uses v order i l st =
        count-assign-le reqs v usage i (ground (arith, (l.inv.current usage).0 (inl refl)))

    -- The write of `next` keeps the loop's invariant.
    pointed :
        (uses : List Usage) (v : Vertices) (order : List Usage) (i : VertexInfo)
        → Loop uses v order
        → i.status ≡ visiting
        → Loop uses (assign v usage i) order
    pointed uses v order i l st = record {
      inv = Inv-next reqs usage i l.inv (ground (arith, (l.inv.current usage).0 (inl refl)));
      path = PathTo-congr reqs v (assign v usage i) usage stack (others uses v order i l) l.path;
      part = l.part;
      rest = l.rest;
      fits = omega (arith, l.fits, pointed-le uses v order i l st);
      fuel = omega (arith, l.fuel, pointed-le uses v order i l st);
    }

    Loop-lem :
        (uses : List Usage) (v : Vertices) (order : List Usage)
        → Loop uses v order
        → Post v stack order usage (search_uses reqs find usage uses v)
    Loop-lem [] v order l = finish v order l
    Loop-lem (next ∷ uses) v order l =
        let (i, e, st) = top_info (next ∷ uses) v order l in
        let i' = record i { next = next } in
        let v' = assign v usage i' in
        let same = others (next ∷ uses) v order i' l in
        let l' = pointed (next ∷ uses) v order i' l st in
        let less : count reqs v' ≤ count reqs v = pointed-le (next ∷ uses) v order i' l st in
        elim (Option-cases (get reqs next)) [
          | inl absent ↦ rw (search_uses-none reqs find usage v next uses e absent) (
              Post-earlier stack order order usage _ same (λ u m. m) less
                (Loop-lem uses v' order (missing next uses v' order l' absent)))
          | inr (next_lib, present) ↦ rw (search_uses-some reqs find usage v next uses e present) (
              Post-earlier stack order order usage _ same (λ u m. m) less
                (child next uses v' order (find v' next next_lib) l' (Loop-lem uses) (
                  finds v' (usage ∷ stack) order next next_lib present l'.inv
                    (
                      (lib, here, l.part next (inl refl), (next_lib, present)),
                      (i', assign_self v usage i', refl),
                      l'.path,
                    )
                    l'.fits l'.fuel)))
        ]

  module _ (n : ℕ) (v : Vertices) (usage : Usage) (lib : Library) (i : VertexInfo)
      (known : v usage ≡ some i) where
    find_cycle-visited : i.status ≡ visited → find_cycle (suc n) reqs v usage lib ≡ clear v
    unfolding find_cycle
    find_cycle-visited st = ground arith

    find_cycle-visiting : i.status ≡ visiting → find_cycle (suc n) reqs v usage lib ≡ cyclic usage v
    unfolding find_cycle
    find_cycle-visiting st = ground arith

    find_cycle-unvisited :
        i.status ≡ unvisited
        → find_cycle (suc n) reqs v usage lib
          ≡ search_uses reqs
              (find_cycle n reqs)
              usage
              lib.uses
              (assign v usage (record i { status = visiting }))
    unfolding find_cycle
    find_cycle-unvisited st = ground arith

  -- The search of an unvisited vertex, given what the searches of its children achieve.
  enter :
      (n : ℕ) (v : Vertices) (stack order : List Usage) (usage : Usage) (lib : Library)
      (i : VertexInfo)
      → Finds n (find_cycle n reqs)
      → get reqs usage ≡ some lib
      → Inv reqs v stack order
      → PathTo reqs v usage stack
      → length stack + count reqs v ≤ length reqs
      → count reqs v < suc n
      → v usage ≡ some i
      → i.status ≡ unvisited
      → Post v stack order usage (find_cycle (suc n) reqs v usage lib)
  enter n v stack order usage lib i finds here inv path fits fuel known st =
      let i' = record i { status = visiting } in
      let v' = assign v usage i' in
      let fresh : status? v usage ≡ some unvisited = ground arith in
      let less = count-assign-lt reqs v usage i' here fresh refl in
      let same : (b : Usage) → Elem b stack → v' b ≡ v b = λ b m.
        assign_ne v i'
          (λ e. ground (arith, (inv.current usage).0 (subst (λ x. Elem x stack) (sym e) m))) in
      rw (find_cycle-unvisited n v usage lib i known st) (
        Post-earlier stack order order usage _ same (λ u m. m) (omega (arith, less))
          (Loop-lem n (find_cycle n reqs) finds stack usage lib here lib.uses v' order (record {
            inv = Inv-enter reqs usage i' inv fresh refl;
            path = PathTo-congr reqs v v' usage stack same path;
            part = λ w m. m;
            rest = λ w edge. inr (
                subst (λ l. Elem w (Library.uses l)) (some-injective edge.0 lib (sym edge.1 ∙ here))
                  edge.2);
            fits = omega (arith, less);
            fuel = omega (arith, less);
          })))

  Status-cases : (s : Status) → (s ≡ unvisited) ⊎ (s ≡ visiting) ⊎ (s ≡ visited)
  Status-cases unvisited = inl refl
  Status-cases visiting = inr (inl refl)
  Status-cases visited = inr (inr refl)

  -- With fuel for the unvisited keys a search ends, without a fault: it finishes the vertex, or
  -- leaves a cycle.
  pub find_cycle-Finds : (n : ℕ) → Finds n (find_cycle n reqs)
  find_cycle-Finds zero v stack order usage lib here inv path fits fuel = absurd (omega arith)
  find_cycle-Finds (suc n) v stack order usage lib here inv path fits fuel =
      elim (Option-cases (v usage)) [
        | inl e ↦ absurd (inv.present usage (lib, here) (ground arith))
        | inr (i, known) ↦ elim (Status-cases i.status) [
          | inl st ↦
              enter n v stack order usage lib i (find_cycle-Finds n) here inv path fits fuel known
                st
          | inr (inl st) ↦
              rw (find_cycle-visiting n v usage lib i known st)
                (stack, (inv.current usage).1 (ground arith), path, omega arith)
          | inr (inr st) ↦ rw (find_cycle-visited n v usage lib i known st) (record {
            after = order;
            inv = inv;
            added = (inv.finished usage).1 (ground arith);
            kept = λ u m. m;
            same = λ b m. refl;
            fewer = omega arith;
          })
        ]
      ]
