-- ===== src/Manifest/Cycle.antt =====
-- crates/chromifer-manifest/src/lib.rs: `find_cycle`, a depth-first search whose recursion takes
-- fuel. `states` and `stack`, which the source mutates, are passed along.
pub mod Walks
pub mod Invariant
pub mod Fuel
pub mod Visit
pub mod Edges
pub mod Laws
use chromifer.Base.{
  ℕ, zero, suc, String, Bool, List, [], ◌∷◌, ◌++◌, Option, none, some, ◌==◌, string_eq, string_ord,
  if◌then◌else◌, map, filter, length,
}
use chromifer.Base.Sets.{TreeMap, get, put, member}
use chromifer.Manifest.Data.{Module, Dependency, ids_of_modules}

pub data Mark : Type 0 where
  active complete : Mark

pub record Search : Type 0 where
  pub states : TreeMap String Mark
  pub stack : List String

-- What `visit` leaves: `None` with the new state, or `Some(cycle)`.
pub data Outcome : Type 0 where
  clear : Search → Outcome
  found : List String → Outcome
  out_of_fuel : Outcome

abbrev pub Graph : Type 0
Graph = TreeMap String (List String)

-- `graph.get(id)`, where a missing id has nothing to loop over
pub dependencies_of : Graph → String → List String
dependencies_of graph id = elim (get graph id) [ none ↦ [] | some ids ↦ ids ]

-- The items from the first that equals `id`
pub suffix_from : String → List String → Option (List String)
suffix_from id [] = none
suffix_from id (x ∷ xs) = if x == id then some (x ∷ xs) else suffix_from id xs

-- `stack[start..]` with `id` behind it, where `start` is 0 if `id` is not on the stack
pub cycle_at : String → List String → List String
cycle_at id stack = elim (suffix_from id stack) [
  | none ↦ stack ++ id ∷ []
  | some suffix ↦ suffix ++ id ∷ []
]

-- `stack.pop()`
pub pop : List String → List String
pop [] = []
pop (x ∷ []) = []
pop (x ∷ y ∷ rest) = x ∷ pop (y ∷ rest)

pub enter : String → Search → Search
enter id s = record { states = put id active s.states; stack = s.stack ++ id ∷ [] }

pub leave : String → Search → Search
leave id s = record { states = put id complete s.states; stack = pop s.stack }

pub finish : String → Outcome → Outcome
finish id (clear s) = clear (leave id s)
finish id (found cycle) = found cycle
finish id out_of_fuel = out_of_fuel

-- Going on from a state; an early return ends the rest.
pub and_then : Outcome → (Search → Outcome) → Outcome
and_then (clear s) next = next s
and_then (found cycle) next = found cycle
and_then out_of_fuel next = out_of_fuel

-- The loop over the dependencies
pub visit_all : (String → Search → Outcome) → List String → Search → Outcome
visit_all step [] s = clear s
visit_all step (id ∷ ids) s = and_then (step id s) (visit_all step ids)

-- `match states.get(id)`, for an id and what is left to do where it is new
pub dispatch : Option Mark → String → Search → (Search → Outcome) → Outcome
dispatch (some complete) id s explore = clear s
dispatch (some active) id s explore = found (cycle_at id s.stack)
dispatch none id s explore = explore s

pub visit : Graph → ℕ → String → Search → Outcome
visit graph zero id s = out_of_fuel
visit graph (suc fuel) id s =
    dispatch (get s.states id) id s
      λ s. finish id (visit_all (visit graph fuel) (dependencies_of graph id) (enter id s))

-- `known` is the set of the module ids.
pub known_dependencies : List String → List Dependency → List String
known_dependencies known deps =
    map (λ (d : Dependency). d.module_id)
      (filter (λ (d : Dependency). member known d.module_id) deps)

-- `collect` of the pairs: of two modules with one id the later stays.
pub build_graph_onto : List String → Graph → List Module → Graph
build_graph_onto known graph [] = graph
build_graph_onto known graph (m ∷ modules) =
    build_graph_onto known (put m.id (known_dependencies known m.dependencies) graph) modules

pub build_graph : List String → List Module → Graph
build_graph known modules = build_graph_onto known [] modules

-- The fuel is one more than there are modules, each of which is entered at most once.
pub run_search : List Module → List String → Outcome
run_search modules known =
    visit_all (visit (build_graph known modules) (suc (length modules))) (ids_of_modules modules)
      (record { states = []; stack = [] })

-- The result of the nested `visit`s
pub reported : Outcome → Option (List String)
reported (clear s) = none
reported (found cycle) = some cycle
reported out_of_fuel = none

unfoldable pub find_cycle : List Module → List String → Option (List String)
unfolding dependencies_of suffix_from cycle_at pop enter leave finish and_then visit_all dispatch
    visit known_dependencies build_graph_onto build_graph run_search reported get put member
find_cycle modules known = reported (run_search modules known)
