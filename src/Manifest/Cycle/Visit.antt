-- ===== src/Manifest/Cycle/Visit.antt =====
-- What one visit and the loop over dependencies return.
use chromifer.Base.{
  ℕ, zero, suc, ◌<◌, String, ◌≡◌, refl, sym, subst, Option, none, some, List, [], ◌∷◌, ◌++◌, inl,
  inr, In, All, arith, append_assoc, ◌==◌, string_eq, Bool-cases, eq_iff, All-of_In, All-In, length,
  ◌≢◌, string_ord,
}
use chromifer.Base.Sets.{get}
use chromifer.Manifest.Cycle.{
  Graph, Mark, active, complete, Search, Outcome, clear, found, out_of_fuel, dependencies_of,
  suffix_from, cycle_at, enter, finish, and_then, visit_all, dispatch, visit,
}
use chromifer.Manifest.Cycle.Walks.{Edge, IsChain, IsCycle, IsChain-snoc, IsChain-suffix}
use chromifer.Manifest.Cycle.Invariant.{
  mark, After, After-refl, After-trans, After-leave, Inv, enter-Inv, leave-Inv, mark-leave_self,
  mark-enter_self,
}
use chromifer.Manifest.Cycle.Fuel.{unvisited, unvisited-After, unvisited-enter, unvisited-le-length}

-- A member of the stack splits it there.
suffix_from-split :
    (id : String) (xs : List String)
    → In id xs
    → (before rest : List String) × (suffix_from id xs ≡ some (id ∷ rest))
      × (xs ≡ before ++ id ∷ rest)
unfolding suffix_from
suffix_from-split id [] m = elim m [ ]
suffix_from-split id (x ∷ xs) m = elim (Bool-cases (x == id)) [
  | inl e ↦ let q = (eq_iff x id).0 e in ([], xs, rw (e, suffix_from) (cc), cc)
  | inr e ↦ elim m [
    | inl q ↦ absurd (ground (arith, eq_iff x id))
    | inr r ↦
        let (before, rest, f, g) = suffix_from-split id xs r in
        (x ∷ before, rest, rw (e, suffix_from) f, cc)
  ]
]

module _ (graph : Graph) where
  cycle_at-IsCycle :
      (id : String) (stack : List String)
      → In id stack
      → IsChain (Edge graph) (stack ++ id ∷ [])
      → IsCycle (Edge graph) (cycle_at id stack)
  unfolding cycle_at
  cycle_at-IsCycle id stack m h =
      let (before, rest, f, g) = suffix_from-split id stack m in
      rw (f, cycle_at)
        (record {
          start = id;
          between = rest;
          shape = refl;
          chain =
              IsChain-suffix (Edge graph) before (id ∷ (rest ++ id ∷ []))
                (subst (IsChain (Edge graph)) (rw g (append_assoc before (id ∷ rest) (id ∷ []))) h);
        })

none_marked : (x : String) (m : Mark) → get {V = Mark} [] x ≢ some m
unfolding get
none_marked x m e = cc

module _ (graph : Graph) where
  -- What an outcome promises
  abbrev pub Promise : (Search → Type 0) → Outcome → Type 0
  Promise P (clear t) = P t
  Promise P (found cycle) = IsCycle (Edge graph) cycle
  Promise P out_of_fuel = ⊥

  pub record Done (ids : List String) (s t : Search) : Type 0 where
    pub inv : Inv graph t
    pub after : After s t
    pub all_complete : All (λ id. mark t id ≡ some complete) ids

  and_then-Promise :
      (P Q : Search → Type 0) (o : Outcome) (next : Search → Outcome)
      → Promise P o
      → ((t : Search) → P t → Promise Q (next t))
      → Promise Q (and_then o next)
  unfolding and_then
  and_then-Promise P Q (clear t) next h k = k t h
  and_then-Promise P Q (found cycle) next h k = h
  and_then-Promise P Q out_of_fuel next h k = h

  Promise-imp :
      (P Q : Search → Type 0) (o : Outcome) → ((t : Search) → P t → Q t) → Promise P o → Promise Q o
  Promise-imp P Q (clear t) k h = k t h
  Promise-imp P Q (found cycle) k h = h
  Promise-imp P Q out_of_fuel k h = h

  -- `ids` holds every id that the search can meet.
  module _ (ids : List String) (inside : (a b : String) → Edge graph a b → In b ids) where
    abbrev Visits : ℕ → (String → Search → Outcome) → Type 0
    Visits fuel step =
        (id : String) (s : Search)
        → Inv graph s
        → In id ids
        → unvisited ids s < fuel
        → IsChain (Edge graph) (s.stack ++ id ∷ [])
        → Promise (Done (id ∷ []) s) (step id s)

    visit_all-Promise :
        (fuel : ℕ) (step : String → Search → Outcome)
        → Visits fuel step
        → (todo : List String) (s : Search) → Inv graph s
        → All (λ d. In d ids) todo
        → unvisited ids s < fuel
        → All (λ d. IsChain (Edge graph) (s.stack ++ d ∷ [])) todo
        → Promise (Done todo s) (visit_all step todo s)
    unfolding visit_all
    visit_all-Promise fuel step visits [] s h m f c = record {
      inv = h;
      after = After-refl s;
      all_complete = tt;
    }
    visit_all-Promise fuel step visits (d ∷ todo) s h m f c =
        and_then-Promise (Done (d ∷ []) s) (Done (d ∷ todo) s) (step d s) (visit_all step todo)
          (visits d s h m.0 f c.0)
          λ t one.
            Promise-imp (Done todo t) (Done (d ∷ todo) s) (visit_all step todo t)
              (λ u rest. record {
                inv = rest.inv;
                after = After-trans one.after rest.after;
                all_complete = (rest.after.complete_stays d one.all_complete.0, rest.all_complete);
              })
              (visit_all-Promise fuel step visits todo t one.inv m.1
                (omega (arith, unvisited-After ids one.after))
                (subst (λ st. All (λ d. IsChain (Edge graph) (st ++ d ∷ [])) todo)
                  (sym one.after.stack) c.1))

    finish-Promise :
        (id : String) (s : Search) (o : Outcome)
        → mark s id ≡ none
        → Promise (Done (dependencies_of graph id) (enter id s)) o
        → Promise (Done (id ∷ []) s) (finish id o)
    unfolding finish enter
    finish-Promise id s (clear t) new h = record {
      inv =
          leave-Inv graph id s.stack t h.after.stack
            (h.after.active_stays id (mark-enter_self id s))
            (λ d m.
              All-In (λ d. mark t d ≡ some complete) (dependencies_of graph id) d h.all_complete m)
            h.inv;
      after = After-leave id s t new h.after;
      all_complete = (mark-leave_self id t, tt);
    }
    finish-Promise id s (found cycle) new h = h
    finish-Promise id s out_of_fuel new h = h

    dispatch-Promise :
        (o : Option Mark) (id : String) (s : Search) (explore : Search → Outcome)
        → mark s id ≡ o
        → Inv graph s
        → IsChain (Edge graph) (s.stack ++ id ∷ [])
        → (o ≡ none → Promise (Done (id ∷ []) s) (explore s))
        → Promise (Done (id ∷ []) s) (dispatch o id s explore)
    unfolding dispatch
    dispatch-Promise none id s explore e h c new = new refl
    dispatch-Promise (some active) id s explore e h c new =
        cycle_at-IsCycle graph id s.stack (h.on_stack id e) c
    dispatch-Promise (some complete) id s explore e h c new = record {
      inv = h;
      after = After-refl s;
      all_complete = (e, tt);
    }

    -- A visit of a known id, from a chain that leads to it and with fuel for the unmarked ids,
    -- returns: a cycle of the graph, or a state in which the id is complete.
    pub visit-Promise : (fuel : ℕ) → Visits fuel (visit graph fuel)
    unfolding visit enter
    visit-Promise zero id s h m f c = elim f [ ]
    visit-Promise (suc fuel) id s h m f c = dispatch-Promise (mark s id) id s _ refl h c λ new.
        finish-Promise id s _ new (
          visit_all-Promise fuel (visit graph fuel) (visit-Promise fuel) (dependencies_of graph id)
            (enter id s) (enter-Inv graph id s new h)
            (All-of_In (λ d. In d ids) _ (λ d e. inside id d e))
            (omega (arith, unvisited-enter ids id s m new))
            (All-of_In (λ d. IsChain (Edge graph) ((s.stack ++ id ∷ []) ++ d ∷ [])) _
              (λ d e. IsChain-snoc (Edge graph) s.stack id d c e)))

    -- The same for the loop over the modules, from the empty state
    pub visit_all_start :
        (fuel : ℕ) (todo : List String)
        → All (λ d. In d ids) todo
        → length ids < fuel
        → let start : Search = record { states = []; stack = [] } in
          Promise (Done todo start) (visit_all (visit graph fuel) todo start)
    visit_all_start fuel todo known f =
        let start : Search = record { states = []; stack = [] } in
        visit_all-Promise fuel (visit graph fuel) (visit-Promise fuel) todo start start_inv known
          (omega (arith, unvisited-le-length ids start)) (All-of_In _ todo (λ d m. tt))
      where
        start_inv : Inv graph (record { states = []; stack = [] })
        start_inv = record {
          on_stack = λ x e. absurd (none_marked x active e);
          closed = λ x y e m. absurd (none_marked x complete e);
          acyclic = λ x e. absurd (none_marked x complete e);
        }
