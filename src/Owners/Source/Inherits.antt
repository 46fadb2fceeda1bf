-- ===== src/Owners/Source/Inherits.antt =====
-- Whose owners a source has: the rule of inheritance between directories.
use chromifer.Base.{
  ℕ, String, ◌≡◌, ◌↔◌, ◌⊎◌, inl, inr, true, false, List, ◌∷◌, some, In, string_ord, subst,
}
use chromifer.Base.Results.{ok}
use chromifer.Owners.Data.{RepoPath, path_string}
use chromifer.Owners.Include.{Files}
use chromifer.Owners.Resolve.{LayerOwnership}
use chromifer.Owners.Resolve.Direct.{direct_layer}
use chromifer.Owners.Source.{strip_directory, owner_file_in}

module _ (fs : Files) (fuel : ℕ) (relative : RepoPath) where
  -- The path of the source below a directory, and the layer that its OWNERS file is for it
  pub record IsLayerOf (directory : RepoPath) (layer : LayerOwnership) : Type 0 where
    pub scoped : RepoPath
    pub is_file : fs.is_file (owner_file_in directory) ≡ true
    pub stripped : strip_directory relative directory ≡ some scoped
    pub evaluated : direct_layer fs fuel (owner_file_in directory) (path_string scoped) ≡ ok layer

  -- An owner comes from the first directory, or from a later one unless the first has an OWNERS file
  -- that stops inheritance.
  pub data Inherits : List RepoPath → String → Type 0 where
    listed_here :
        {d : RepoPath} {ds : List RepoPath} {o : String} (layer : LayerOwnership)
        → IsLayerOf d layer
        → In o layer.owners
        → Inherits (d ∷ ds) o
    without_file :
        {d : RepoPath} {ds : List RepoPath} {o : String}
        → fs.is_file (owner_file_in d) ≡ false
        → Inherits ds o
        → Inherits (d ∷ ds) o
    from_above :
        {d : RepoPath} {ds : List RepoPath} {o : String} (layer : LayerOwnership)
        → IsLayerOf d layer
        → layer.stop_inheritance ≡ false
        → Inherits ds o
        → Inherits (d ∷ ds) o

  IsLayerOf-unique :
      (d : RepoPath) (layer other : LayerOwnership)
      → IsLayerOf d layer
      → IsLayerOf d other
      → layer ≡ other
  IsLayerOf-unique d layer other a b =
      let same : a.scoped ≡ b.scoped = cc (a.stripped, b.stripped) in
      let e = b.evaluated in
      let k =
        subst (λ s. direct_layer fs fuel (owner_file_in d) (path_string s) ≡ ok layer) same
          a.evaluated in
      cc

  pub Inherits-without :
      (d : RepoPath) (ds : List RepoPath) (o : String)
      → fs.is_file (owner_file_in d) ≡ false
      → Inherits (d ∷ ds) o ↔ Inherits ds o
  Inherits-without d ds o e = (out, λ h. without_file e h)
    where
      out : Inherits (d ∷ ds) o → Inherits ds o
      out (listed_here layer l m) = absurd (cc (e, l.is_file))
      out (without_file _ h) = h
      out (from_above layer l s h) = h

  pub Inherits-layer :
      (d : RepoPath) (ds : List RepoPath) (o : String) (layer : LayerOwnership)
      → IsLayerOf d layer
      → Inherits (d ∷ ds) o
        ↔ (In o layer.owners ⊎ ((layer.stop_inheritance ≡ false) × Inherits ds o))
  Inherits-layer d ds o layer l =
      (out, λ h. elim h [ inl m ↦ listed_here layer l m | inr (s, r) ↦ from_above layer l s r ])
    where
      out :
          Inherits (d ∷ ds) o
          → In o layer.owners ⊎ ((layer.stop_inheritance ≡ false) × Inherits ds o)
      out (listed_here other k m) =
          inl (subst (λ (l : LayerOwnership). In o l.owners) (IsLayerOf-unique d other layer k l) m)
      out (without_file e h) = absurd (cc (e, l.is_file))
      out (from_above other k s h) = inr (
        subst (λ (l : LayerOwnership). l.stop_inheritance ≡ false)
            (IsLayerOf-unique d other layer k l) s,
        h,
      )
