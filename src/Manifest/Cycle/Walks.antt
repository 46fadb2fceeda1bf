-- ===== src/Manifest/Cycle/Walks.antt =====
-- Walks and chains of a relation on ids, and the edges of a graph.
use chromifer.Base.{String, ◌≡◌, List, [], ◌∷◌, ◌++◌, In, subst}
use chromifer.Manifest.Cycle.{Graph, dependencies_of}

-- In the graph `a` lists `b`.
abbrev pub Edge : Graph → String → String → Type 0
Edge graph a b = In b (dependencies_of graph a)

module _ (R : String → String → Type 0) where
  -- A walk of one or more edges
  pub data Walk : String → String → Type 0 where
    one : {a b : String} → R a b → Walk a b
    more : {a b c : String} → R a b → Walk b c → Walk a c

  -- Each item depends on the next.
  abbrev pub IsChain : List String → Type 0
  IsChain [] = Unit
  IsChain (x ∷ []) = Unit
  IsChain (x ∷ y ∷ rest) = R x y × IsChain (y ∷ rest)

  -- A chain that comes back to its first item
  pub record IsCycle (cycle : List String) : Type 0 where
    pub start : String
    pub between : List String
    pub shape : cycle ≡ start ∷ (between ++ start ∷ [])
    pub chain : IsChain cycle

  pub IsChain-snoc :
      (xs : List String) (a b : String)
      → IsChain (xs ++ a ∷ [])
      → R a b
      → IsChain ((xs ++ a ∷ []) ++ b ∷ [])
  IsChain-snoc [] a b h e = (e, tt)
  IsChain-snoc (x ∷ []) a b h e = (h.0, (e, tt))
  IsChain-snoc (x ∷ y ∷ xs) a b h e = (h.0, IsChain-snoc (y ∷ xs) a b h.1 e)

  pub IsChain-suffix : (xs ys : List String) → IsChain (xs ++ ys) → IsChain ys
  IsChain-suffix [] ys h = h
  IsChain-suffix (x ∷ []) [] h = tt
  IsChain-suffix (x ∷ []) (y ∷ ys) h = h.1
  IsChain-suffix (x ∷ z ∷ xs) ys h = IsChain-suffix (z ∷ xs) ys h.1

  Walk-of_chain :
      (a : String) (xs : List String) (b : String) → IsChain (a ∷ (xs ++ b ∷ [])) → Walk a b
  Walk-of_chain a [] b h = one h.0
  Walk-of_chain a (x ∷ xs) b h = more h.0 (Walk-of_chain x xs b h.1)

  pub Walk-of_IsCycle : (cycle : List String) → IsCycle cycle → (a : String) × Walk a a
  Walk-of_IsCycle cycle c =
      (c.start, Walk-of_chain c.start c.between c.start (subst IsChain c.shape c.chain))

-- A walk of one relation is one of another that holds along it.
pub Walk-imp :
    (R S : String → String → Type 0) (P : String → Type 0)
    → ((a b : String) → R a b → P a)
    → ((a b : String) → R a b → P b → S a b)
    → {a b : String} → P b
    → Walk R a b
    → Walk S a b
Walk-imp R S P source imp p (one e) = one (imp _ _ e p)
Walk-imp R S P source imp p (more {b = b} e w) =
    more (imp _ b e (start w)) (Walk-imp R S P source imp p w)
  where
    start : {x y : String} → Walk R x y → P x
    start (one e) = source _ _ e
    start (more e w) = source _ _ e

pub IsChain-imp :
    (R S : String → String → Type 0) (xs : List String)
    → ((a b : String) → R a b → S a b)
    → IsChain R xs
    → IsChain S xs
IsChain-imp R S [] imp h = tt
IsChain-imp R S (x ∷ []) imp h = tt
IsChain-imp R S (x ∷ y ∷ xs) imp h = (imp x y h.0, IsChain-imp R S (y ∷ xs) imp h.1)
