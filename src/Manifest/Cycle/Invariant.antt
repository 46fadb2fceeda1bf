-- ===== src/Manifest/Cycle/Invariant.antt =====
-- What `visit` keeps true of the marks and the stack, and what the fuel pays for.
use chromifer.Base.{
  String, ◌≡◌, ◌∙◌, refl, false, Option, none, some, List, [], ◌∷◌, ◌++◌, inl, inr, In, In-append,
  arith, if◌then◌else◌, string_ord, Bool-cases, subst,
}
use chromifer.Base.Sets.{get, same, same_iff, get-put}
use chromifer.Manifest.Cycle.{Graph, Mark, active, complete, Search, enter, leave, pop}
use chromifer.Manifest.Cycle.Walks.{Edge, Walk, one, more}

-- The mark of `x`
abbrev pub mark : Search → String → Option Mark
mark s x = get s.states x

pub pop-snoc : (xs : List String) (x : String) → pop (xs ++ x ∷ []) ≡ xs
unfolding pop
pop-snoc [] x = refl
pop-snoc (y ∷ []) x = refl
pop-snoc (y ∷ z ∷ xs) x = rw (pop-snoc (z ∷ xs) x)

-- The marks that a search has set stay, and the stack is as it was.
pub record After (s t : Search) : Type 0 where
  pub stack : t.stack ≡ s.stack
  pub active_stays : (x : String) → mark s x ≡ some active → mark t x ≡ some active
  pub complete_stays : (x : String) → mark s x ≡ some complete → mark t x ≡ some complete

pub After-refl : (s : Search) → After s s
After-refl s = record { stack = refl; active_stays = λ x h. h; complete_stays = λ x h. h }

pub After-trans : {s t u : Search} → After s t → After t u → After s u
After-trans a b = record {
  stack = b.stack ∙ a.stack;
  active_stays = λ x h. b.active_stays x (a.active_stays x h);
  complete_stays = λ x h. b.complete_stays x (a.complete_stays x h);
}

pub mark-enter :
    (id x : String) (s : Search)
    → mark (enter id s) x ≡ (if same x id then some active else mark s x)
unfolding enter
mark-enter id x s = get-put id x active s.states

mark-leave :
    (id x : String) (s : Search)
    → mark (leave id s) x ≡ (if same x id then some complete else mark s x)
unfolding leave
mark-leave id x s = get-put id x complete s.states

pub mark-enter_self : (id : String) (s : Search) → mark (enter id s) id ≡ some active
mark-enter_self id s = ground (arith, mark-enter id id s, same_iff id id)

pub mark-leave_self : (id : String) (s : Search) → mark (leave id s) id ≡ some complete
mark-leave_self id s = ground (arith, mark-leave id id s, same_iff id id)

-- Marking a new id, a search behind it, and unmarking it
pub After-leave :
    (id : String) (s t : Search) → mark s id ≡ none → After (enter id s) t → After s (leave id t)
After-leave id s t new a = record {
  stack = unfold enter leave in rw a.stack (pop-snoc s.stack id);
  active_stays =
      λ x h. ground (arith, mark-leave id x t, mark-enter id x s, a.active_stays x, same_iff x id);
  complete_stays = λ x h.
      ground (arith, mark-leave id x t, mark-enter id x s, a.complete_stays x, same_iff x id);
}

module _ (graph : Graph) where
  pub record Inv (s : Search) : Type 0 where
    pub on_stack : (x : String) → mark s x ≡ some active → In x s.stack
    pub closed :
        (x y : String) → mark s x ≡ some complete → Edge graph x y → mark s y ≡ some complete
    pub acyclic : (x : String) → mark s x ≡ some complete → ¬ Walk (Edge graph) x x

  pub enter-Inv : (id : String) (s : Search) → mark s id ≡ none → Inv s → Inv (enter id s)
  enter-Inv id s new h = record {
    on_stack = λ x e.
        unfold enter in
        (In-append x s.stack (id ∷ [])).1 (elim (Bool-cases (same x id)) [
          | inl q ↦ inr (inl ((same_iff x id).0 q))
          | inr q ↦ inl (h.on_stack x (ground (arith, mark-enter id x s)))
        ]);
    closed = λ x y e m.
        ground
          (arith, mark-enter id x s, mark-enter id y s, h.closed x y, same_iff x id, same_iff y id);
    acyclic = λ x e. h.acyclic x (ground (arith, mark-enter id x s, same_iff x id));
  }

  -- A walk from a complete id stays among the complete ones.
  Walk-complete :
      {s : Search} {x y : String}
      → Inv s
      → mark s x ≡ some complete
      → Walk (Edge graph) x y
      → mark s y ≡ some complete
  Walk-complete h e (one m) = h.closed _ _ e m
  Walk-complete h e (more m w) = Walk-complete h (h.closed _ _ e m) w

  not-Walk_self :
      (id : String) (t : Search)
      → mark t id ≡ some active
      → ((d : String) → Edge graph id d → mark t d ≡ some complete)
      → Inv t
      → ¬ Walk (Edge graph) id id
  not-Walk_self id t act done h (one m) = cc (done id m)
  not-Walk_self id t act done h (more {b = d} m w) = cc (Walk-complete h (done d m) w)

  stays_on_stack :
      (id x : String) (stack : List String) (t : Search)
      → t.stack ≡ stack ++ id ∷ []
      → same x id ≡ false
      → In x t.stack
      → In x (leave id t).stack
  stays_on_stack id x stack t e other m =
      unfold leave in
      rw (e, pop-snoc stack id)
        (elim ((In-append x stack (id ∷ [])).0 (subst (In x) e m)) [
          | inl r ↦ r
          | inr r ↦ elim r [ inl q ↦ absurd (ground (arith, same_iff x id)) | inr n ↦ elim n [ ] ]
        ])

  pub leave-Inv :
      (id : String) (stack : List String) (t : Search)
      → t.stack ≡ stack ++ id ∷ []
      → mark t id ≡ some active
      → ((d : String) → Edge graph id d → mark t d ≡ some complete)
      → Inv t
      → Inv (leave id t)
  leave-Inv id stack t e act done h = record {
    on_stack = λ x k.
        let other : same x id ≡ false = ground (arith, mark-leave id x t) in
        let kept : mark t x ≡ some active = ground (arith, mark-leave id x t) in
        stays_on_stack id x stack t e other (h.on_stack x kept);
    closed = λ x y k m. ground (
      arith,
      mark-leave id x t,
      mark-leave id y t,
      h.closed x y,
      same_iff x id,
      same_iff y id,
      done y,
    );
    acyclic = λ x k. elim (Bool-cases (same x id)) [
      | inl q ↦ rw ((same_iff x id).0 q) (not-Walk_self id t act done h)
      | inr q ↦ h.acyclic x (ground (arith, mark-leave id x t))
    ];
  }
