-- ===== src/Owners/Scan/Laws.antt =====
-- What `scan_ownership` adds to a manifest, and what it counts.
use chromifer.Base.{
  ℕ, suc, ◌+◌, String, ◌≡◌, ◌↔◌, refl, true, List, [], ◌∷◌, Option, none, some, In, All, All-of_In,
  In-map, In-map_inv, map, arith, length, string_ord, is_empty, subst, Paired, Paired-left,
  Paired-right, ap,
}
use chromifer.Base.Results.{Result, ok, err, Yields, Yields-bind, Yields-split}
use chromifer.Base.Sort.{In-sort_by}
use chromifer.Manifest.Data.{Manifest, Module, SourceOwnership}
use chromifer.Manifest.Errors.{Validation, valid, invalid}
use chromifer.Manifest.Path.{normalize_repo_relative_path}
use chromifer.Manifest.Validate.{validate}
use chromifer.Manifest.Validate.Laws.{validate_iff}
use chromifer.Owners.Data.{OwnershipError}
use chromifer.Owners.Include.{Files}
use chromifer.Owners.Resolve.{Resolver}
use chromifer.Owners.Resolve.Cache.{IsCoherent, fresh-IsCoherent}
use chromifer.Owners.Source.{resolve_source}
use chromifer.Owners.Source.Laws.{IsResolvedSource, resolve_source-IsResolvedSource}
use chromifer.Owners.Source.Primary.{resolve_source-primary}
use chromifer.Owners.Scan.Spec.{
  IsExactSource, NormalizesTo, CoversSources, IsScanned, source_count, IsScanOf,
}
use chromifer.Owners.Scan.{
  Progress, no_progress, OwnershipScanOutput, normalized_source, count_source, scan_sources,
  sorted_sources, scan_module, scan_modules, scan_summary, checked_output, scan_ownership,
}

-- Every source is counted once, as resolved or not.
pub record IsCounted (fs : Files) (sources : ℕ) (p : Progress) : Type 0 where
  pub coherent : IsCoherent fs p.resolver
  pub scanned : p.scanned_sources ≡ sources
  pub balance : p.resolved_sources + p.unresolved_sources ≡ p.scanned_sources

module _ (fs : Files) (fuel : ℕ) where
  SourcesFound : ℕ → List String → List SourceOwnership × Progress → Type 0
  SourcesFound before raws (found, p) =
      Paired (λ raw (s : SourceOwnership). NormalizesTo raw s.source × IsExactSource fs fuel s) raws
        found
      × IsCounted fs (before + length raws) p

  count_source-IsCounted :
      (before : ℕ) (p : Progress) (s : SourceOwnership) (st : Resolver)
      → IsCounted fs before p
      → IsCoherent fs st
      → IsCounted fs (suc before) (count_source p s st)
  count_source-IsCounted before p s st h c = record {
    coherent = c;
    scanned = ground (arith, h.scanned);
    balance = ground (arith, h.balance);
  }

  resolved_source :
      (st : Resolver) (source : String)
      → IsCoherent fs st
      → Yields
          (λ (s, st). IsExactSource fs fuel s × (s.source ≡ source) × IsCoherent fs st)
          (resolve_source fs fuel st source)
  resolved_source st source c =
      both (resolve_source fs fuel st source) refl
        (resolve_source-IsResolvedSource fs fuel st source c)
    where
      both :
          (r : Result OwnershipError (SourceOwnership × Resolver))
          → resolve_source fs fuel st source ≡ r
          → Yields (λ (s, st). IsResolvedSource fs fuel source s st) r
          → Yields (λ (s, st). IsExactSource fs fuel s × (s.source ≡ source) × IsCoherent fs st) r
      both (err e) k h = tt
      both (ok (s, next)) k (c, h) =
          let (level, same) = resolve_source-primary fs fuel st next source s k in
          (record { level = level; effective = rw same h }, same, c)

  scan_sources-SourcesFound :
      (module_id : String) (before : ℕ) (p : Progress) (raws : List String)
      → IsCounted fs before p
      → Yields (SourcesFound before raws) (scan_sources fs fuel module_id p raws)
  unfolding scan_sources SourcesFound
  scan_sources-SourcesFound module_id before p [] h =
      (tt, subst (λ n. IsCounted fs n p) (omega arith) h)
  scan_sources-SourcesFound module_id before p (raw ∷ raws) h =
      Yields-bind (NormalizesTo raw) (SourcesFound before (raw ∷ raws)) _ _
        (normalized (normalize_repo_relative_path raw) refl)
        (λ relative n.
          Yields-bind
            (λ (s, st). IsExactSource fs fuel s × (s.source ≡ relative) × IsCoherent fs st)
            (SourcesFound before (raw ∷ raws)) (resolve_source fs fuel p.resolver relative) _
            (resolved_source p.resolver relative h.coherent)
            (λ (s, st) (exact, same, c).
              Yields-bind (SourcesFound (suc before) raws) (SourcesFound before (raw ∷ raws)) _ _
                (scan_sources-SourcesFound module_id (suc before) (count_source p s st) raws
                  (count_source-IsCounted before p s st h c))
                (λ (found, p) (pairs, counted). (
                  ((rw same n, exact), pairs),
                  subst (λ n. IsCounted fs n p) (omega arith) counted,
                ))))
    where
      normalized :
          (o : Option String)
          → normalize_repo_relative_path raw ≡ o
          → Yields (NormalizesTo raw) (normalized_source module_id raw o)
      normalized none e = tt
      normalized (some relative) e = e

  -- Sorting keeps the records.
  In-sorted_sources :
      (s : SourceOwnership) (found : List SourceOwnership)
      → In s (sorted_sources found) ↔ In s found
  In-sorted_sources s found = In-sort_by (λ l r. string_ord.cmp l.source r.source) s found

  module _ (raws : List String) (found : List SourceOwnership)
      (pairs : Paired
        (λ raw (s : SourceOwnership). NormalizesTo raw s.source × IsExactSource fs fuel s)
        raws
        found) where
    sorted_sources-All : All (IsExactSource fs fuel) (sorted_sources found)
    sorted_sources-All = All-of_In (IsExactSource fs fuel) (sorted_sources found) (λ s m.
        let (_, _, r) = Paired-right _ raws found s pairs ((In-sorted_sources s found).0 m) in r.1)

    sorted_sources-CoversSources : CoversSources raws (sorted_sources found)
    sorted_sources-CoversSources source = (
      λ m.
          let (s, i, e) =
            In-map_inv (λ (s : SourceOwnership). s.source) (sorted_sources found) source m in
          let (raw, j, r) = Paired-right _ raws found s pairs ((In-sorted_sources s found).0 i) in
          (raw, j, rw e r.0),
      λ (raw, j, n).
          let (s, i, r) = Paired-left _ raws found raw pairs j in
          let same : s.source ≡ source = cc (n, r.0) in
          subst (λ t. In t (map (λ (s : SourceOwnership). s.source) (sorted_sources found))) same
            (In-map (λ (s : SourceOwnership). s.source) (sorted_sources found) s
              ((In-sorted_sources s found).1 i)),
    )

  ModuleScanned : ℕ → Module → Module × Progress → Type 0
  ModuleScanned before x (y, p) = IsScanned fs fuel x y × IsCounted fs (before + length x.sources) p

  scan_module-ModuleScanned :
      (before : ℕ) (p : Progress) (x : Module)
      → IsCounted fs before p
      → Yields (ModuleScanned before x) (scan_module fs fuel p x)
  unfolding scan_module ModuleScanned SourcesFound
  scan_module-ModuleScanned before p x h =
      Yields-split (ModuleScanned before x) (is_empty x.sources) _ _
        (λ e. (
          record {
            unchanged = refl;
            without = λ k. refl;
            ownership = λ k. absurd (k (eq_of_is_empty x.sources e));
          },
          record {
            coherent = h.coherent;
            scanned = rw (eq_of_is_empty x.sources e) (omega (arith, h.scanned));
            balance = h.balance;
          },
        ))
        (λ e.
          Yields-bind (SourcesFound before x.sources) (ModuleScanned before x) _ _
            (scan_sources-SourcesFound x.id before p x.sources h)
            (λ (found, p) (pairs, counted). (
              record {
                unchanged = refl;
                without = λ k. absurd (cc (ap is_empty k, e));
                ownership = λ k. (
                  sorted_sources found,
                  refl,
                  sorted_sources-All x.sources found pairs,
                  sorted_sources-CoversSources x.sources found pairs,
                );
              },
              record {
                coherent = counted.coherent;
                scanned = counted.scanned;
                balance = counted.balance;
              },
            )))
    where
      eq_of_is_empty : (xs : List String) → is_empty xs ≡ true → xs ≡ []
      eq_of_is_empty [] e = refl
      eq_of_is_empty (y ∷ ys) e = cc

  ModulesScanned : ℕ → List Module → List Module × Progress → Type 0
  ModulesScanned before xs (ys, p) =
      Paired (IsScanned fs fuel) xs ys × IsCounted fs (before + source_count xs) p

  scan_modules-ModulesScanned :
      (before : ℕ) (p : Progress) (xs : List Module)
      → IsCounted fs before p
      → Yields (ModulesScanned before xs) (scan_modules fs fuel p xs)
  unfolding scan_modules ModulesScanned ModuleScanned
  scan_modules-ModulesScanned before p [] h = (tt, subst (λ n. IsCounted fs n p) (omega arith) h)
  scan_modules-ModulesScanned before p (x ∷ xs) h =
      Yields-bind (ModuleScanned before x) (ModulesScanned before (x ∷ xs)) _ _
        (scan_module-ModuleScanned before p x h)
        (λ (y, p) (scanned, counted).
          Yields-bind (ModulesScanned (before + length x.sources) xs)
            (ModulesScanned before (x ∷ xs)) _ _
            (scan_modules-ModulesScanned (before + length x.sources) p xs counted)
            (λ (ys, p) (pairs, last).
              ((scanned, pairs), subst (λ n. IsCounted fs n p) (omega arith) last)))

scan_ownership-Yields :
    (fs : Files) (fuel : ℕ) (m : Manifest) → Yields (IsScanOf fs fuel m) (scan_ownership fs fuel m)
unfolding scan_ownership ModulesScanned
scan_ownership-Yields fs fuel m =
    Yields-bind (ModulesScanned fs fuel 0 m.modules) (IsScanOf fs fuel m) _ _
      (scan_modules-ModulesScanned fs fuel 0 no_progress m.modules
        (record { coherent = fresh-IsCoherent fs; scanned = refl; balance = refl }))
      (λ (ys, p) h. checked (validate (record m { modules = ys })) ys p refl h)
  where
    checked :
        (v : Validation) (ys : List Module) (p : Progress)
        → validate (record m { modules = ys }) ≡ v
        → ModulesScanned fs fuel 0 m.modules (ys, p)
        → Yields (IsScanOf fs fuel m) (
            checked_output v (record {
              manifest = record m { modules = ys };
              summary = scan_summary (length m.modules) p;
            }))
    checked (invalid errors) ys p e h = tt
    checked valid ys p e h = record {
      valid_manifest = (validate_iff (record m { modules = ys })).0 e;
      unchanged = refl;
      modules = h.0;
      scanned_modules = refl;
      scanned_sources = omega (arith, h.1.scanned);
      balance = h.1.balance;
    }

-- If a scan gives an output, its manifest is valid and is the given one but for the ownership of
-- modules: a module without sources has none, and another has the summary of records, one for each
-- source under its normalized path, each of which has primary owners among its effective ones,
-- some exactly when there are effective ones, and lists as effective exactly the owners that the
-- source inherits. The counts are those of the modules and the sources, and each source counts as
-- resolved or as unresolved.
pub scan_ownership-IsScanOf :
    (fs : Files) (fuel : ℕ) (m : Manifest) (output : OwnershipScanOutput)
    → scan_ownership fs fuel m ≡ ok output
    → IsScanOf fs fuel m output
scan_ownership-IsScanOf fs fuel m output e =
    subst (Yields (IsScanOf fs fuel m)) e (scan_ownership-Yields fs fuel m)
