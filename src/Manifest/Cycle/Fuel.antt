-- ===== src/Manifest/Cycle/Fuel.antt =====
-- The fuel of `visit` pays for ids that have no mark yet.
use chromifer.Base.{
  length-filter_mono, length-filter_lt, ℕ, ◌≤◌, ◌<◌, String, ◌≡◌, Bool, not, none, List, [], ◌∷◌,
  In, arith, filter, length, is_some, string_ord,
}
use chromifer.Manifest.Cycle.{Search, enter}
use chromifer.Manifest.Cycle.Invariant.{mark, mark-enter, mark-enter_self, After}

-- The ids among `ids` that have no mark
abbrev pub unmarked : Search → String → Bool
unmarked s x = not (is_some (mark s x))

pub unvisited : List String → Search → ℕ
unvisited ids s = length (filter (unmarked s) ids)

pub unvisited-After :
    (ids : List String) {s t : Search} → After s t → unvisited ids t ≤ unvisited ids s
unfolding unvisited
unvisited-After ids {s} {t} a =
    length-filter_mono (unmarked s) (unmarked t) ids
      (λ x h. ground (arith, a.active_stays x, a.complete_stays x))

pub unvisited-enter :
    (ids : List String) (id : String) (s : Search)
    → In id ids
    → mark s id ≡ none
    → unvisited ids (enter id s) < unvisited ids s
unfolding unvisited
unvisited-enter ids id s m new =
    length-filter_lt (unmarked s) (unmarked (enter id s)) ids id
      (λ x h. ground (arith, mark-enter id x s)) m (rw new) (rw (mark-enter_self id s))

pub unvisited-le-length : (ids : List String) (s : Search) → unvisited ids s ≤ length ids
unfolding unvisited
unvisited-le-length [] s = omega arith
unvisited-le-length (x ∷ ids) s = ground (arith, unvisited-le-length ids s)
