-- ===== src/Manifest/Lookup.antt =====
-- What `Manifest::module` finds.
use chromifer.Base.{
  String, ◌≡◌, ◌↔◌, refl, List, [], ◌∷◌, none, some, In, In-map, NoRepeat, arith, map, ◌==◌,
  string_eq, eq_iff, Bool-cases, inl, inr, false,
}
use chromifer.Manifest.Data.{Module, Manifest, find_by, find_module, ids_of_modules}

module _ {A : Type 0} (key : A → String) where
  find_by-some :
      (xs : List A) (id : String) (x : A) → find_by key xs id ≡ some x → In x xs × (key x ≡ id)
  unfolding find_by
  find_by-some [] id x e = cc
  find_by-some (y ∷ xs) id x e = elim (Bool-cases (key y == id)) [
    | inl k ↦ let same : x ≡ y = ground arith in (inl same, rw same ((eq_iff (key y) id).0 k))
    | inr k ↦ let (i, q) = find_by-some xs id x (ground arith) in (inr i, q)
  ]

  find_by-none_iff :
      (xs : List A) (id : String) → (find_by key xs id ≡ none) ↔ (¬ In id (map key xs))
  unfolding find_by
  find_by-none_iff [] id = (λ h i. elim i [ ], λ h. refl)
  find_by-none_iff (y ∷ xs) id = ground (arith, find_by-none_iff xs id, eq_iff (key y) id)

  find_by_self :
      (xs : List A) (x : A) → NoRepeat (map key xs) → In x xs → find_by key xs (key x) ≡ some x
  unfolding find_by
  find_by_self [] x u i = elim i [ ]
  find_by_self (y ∷ xs) x u i = elim i [
    | inl e ↦ rw e (ground (arith, eq_iff (key y) (key y)))
    | inr r ↦
        let other : (key y == key x) ≡ false =
          ground (arith, eq_iff (key y) (key x), u.0, In-map key xs x r) in
        rw (other, find_by) (find_by_self xs x u.1 r)
  ]

-- The module that is found is one of the manifest, with the id asked for.
pub find_module-some :
    (m : Manifest) (id : String) (x : Module)
    → find_module m id ≡ some x
    → In x m.modules × (x.id ≡ id)
unfolding find_module
find_module-some m = find_by-some (λ (x : Module). x.id) m.modules

pub find_module-none_iff :
    (m : Manifest) (id : String) → (find_module m id ≡ none) ↔ (¬ In id (ids_of_modules m.modules))
unfolding find_module
find_module-none_iff m = find_by-none_iff (λ (x : Module). x.id) m.modules

-- Where ids are listed once, each module is found by its id.
pub find_module_self :
    (m : Manifest) (x : Module)
    → NoRepeat (ids_of_modules m.modules)
    → In x m.modules
    → find_module m x.id ≡ some x
unfolding find_module
find_module_self m = find_by_self (λ (x : Module). x.id) m.modules
