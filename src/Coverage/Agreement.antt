-- ===== src/Coverage/Agreement.antt =====
-- Which reports agree with a manifest.
use chromifer.Base.{
  String, ◌≡◌, ◌↔◌, ◌⊎◌, refl, sym, Bool, true, false, not, ◌||◌, List, [], ◌∷◌, some, All, In,
  arith, map, if◌then◌else◌, inl, inr, any, any-eq-false, option_beq_iff, string_eq, option_eq,
  eq_iff, list_beq_iff, list_eq, string_ord, concat_map, ◌==◌, All-iff, All-In, All-of_In, ap,
}
use chromifer.Base.Results.{Result, ok, err, ◌>>=◌}
use chromifer.Base.Sets.{
  TreeMap, put, keys, In-keys-put, extend, In-extend, insert, member, member_iff,
}
use chromifer.Manifest.Data.{Module, Manifest}
use chromifer.Manifest.Path.{normalize_repo_relative_path}
use chromifer.Coverage.Data.{
  manifest_mismatch, LineCoverage, FileCoverage, CoverageReport, module_eq, totals_eq,
  totals_beq_iff,
}
use chromifer.Coverage.Report.{validate_report}
use chromifer.Coverage.Totals.{
  aggregate_modules, aggregate_totals, add_sources, manifest_sources, measured_onto, disagrees,
  check_baseline, check_sums, verify_report_manifest,
}
use chromifer.Coverage.Laws.{IsValidReport, validate_report_iff}

abbrev pub sources_of : Manifest → List String
sources_of m = concat_map (λ (x : Module). x.sources) m.modules

abbrev pub paths_of : CoverageReport → List String
paths_of r = map (λ (f : FileCoverage). f.path) r.files

abbrev pub IsNormal : String → Type 0
IsNormal s = normalize_repo_relative_path s ≡ some s

-- The sums of a report are those of its files, over the sources of the manifest.
pub record HasSums (r : CoverageReport) (m : Manifest) : Type 0 where
  pub known : All (λ path. In path (sources_of m)) (paths_of r)
  pub modules : r.modules ≡ aggregate_modules (measured_onto [] r.files) m.modules
  pub totals : r.totals ≡ aggregate_totals (extend [] (sources_of m)) (measured_onto [] r.files)

pub record Agrees (r : CoverageReport) (m : Manifest) (manifest_sha256 : String) : Type 0 where
  pub valid : IsValidReport r
  pub digest : r.manifest_sha256 ≡ manifest_sha256
  pub baseline : r.baseline ≡ m.project.baseline
  pub sources : All IsNormal (sources_of m)
  pub sums : HasSums r m

add_sources-ok_iff :
    (found sources out : List String)
    → (add_sources found sources ≡ ok out) ↔ (All IsNormal sources × (out ≡ extend found sources))
unfolding add_sources extend
add_sources-ok_iff found [] out = (λ h. (tt, cc h), λ h. ap ok (sym h.1))
add_sources-ok_iff found (s ∷ sources) out = ground (
  arith,
  option_beq_iff (normalize_repo_relative_path s) (some s),
  add_sources-ok_iff (insert s found) sources out,
)

In-keys-measured_onto :
    (measured : TreeMap String LineCoverage) (files : List FileCoverage) (k : String)
    → In k (keys (measured_onto measured files))
      ↔ (In k (keys measured) ⊎ In k (map (λ (f : FileCoverage). f.path) files))
unfolding measured_onto
In-keys-measured_onto measured [] k = (λ h. inl h, λ h. elim h [ inl i ↦ i | inr i ↦ elim i [ ] ])
In-keys-measured_onto measured (f ∷ files) k = ground (
  arith,
  In-keys-measured_onto (put f.path f.lines measured) files k,
  In-keys-put f.path k f.lines measured,
)

known_iff :
    (r : CoverageReport) (m : Manifest)
    → (any (λ path. not (member (extend [] (sources_of m)) path)) (keys (measured_onto [] r.files))
        ≡ false)
      ↔ All (λ path. In path (sources_of m)) (paths_of r)
known_iff r m =
    let sources = extend [] (sources_of m) in
    let measured = keys (measured_onto [] r.files) in
    let tested = any-eq-false (λ path. not (member sources path)) measured in
    let each : (path : String) → (not (member sources path) ≡ false) ↔ In path (sources_of m) =
      λ path. ground (arith, member_iff sources path, In-extend path [] (sources_of m)) in
    let meant = All-iff measured each in
    (
      λ h.
          All-of_In (λ path. In path (sources_of m)) (paths_of r)
            (λ path i.
              All-In (λ path. In path (sources_of m)) measured path (meant.0 (tested.0 h))
                ((In-keys-measured_onto [] r.files path).1 (inr i))),
      λ v. tested.1 (
          meant.1 (
            All-of_In (λ path. In path (sources_of m)) measured
              (λ path i. elim ((In-keys-measured_onto [] r.files path).0 i) [
                | inl n ↦ elim n [ ]
                | inr j ↦ All-In (λ path. In path (sources_of m)) (paths_of r) path v j
              ]))),
    )

check_sums-ok_iff :
    (r : CoverageReport) (m : Manifest)
    → (check_sums r m (extend [] (sources_of m)) ≡ ok tt) ↔ HasSums r m
unfolding disagrees
check_sums-ok_iff r m =
    let known = known_iff r m in
    let measured = measured_onto [] r.files in
    let rows = aggregate_modules measured m.modules in
    let sums = aggregate_totals (extend [] (sources_of m)) measured in
    let all =
      passed_iff (any (λ path. not (member (extend [] (sources_of m)) path)) (keys measured))
        (r.modules == rows) (r.totals == sums) in
    (
      λ h.
          let (a, b, c) = all.0 h in
          record {
            known = known.0 a;
            modules = (list_beq_iff r.modules rows).0 b;
            totals = (totals_beq_iff r.totals sums).0 c;
          },
      λ v. all.1 (
        known.1 v.known,
        (list_beq_iff r.modules rows).1 v.modules,
        (totals_beq_iff r.totals sums).1 v.totals,
      ),
    )
  where
    passed_iff :
        (a b c : Bool)
        → ((if a || (not b || not c) then err manifest_mismatch else ok tt) ≡ ok tt)
          ↔ ((a ≡ false) × (b ≡ true) × (c ≡ true))
    passed_iff a b c = ground arith

check_baseline-ok_iff :
    (r : CoverageReport) (m : Manifest) (d : String)
    → (check_baseline r m d ≡ ok tt) ↔ ((r.manifest_sha256 ≡ d) × (r.baseline ≡ m.project.baseline))
check_baseline-ok_iff r m d =
    ground (arith, eq_iff r.manifest_sha256 d, eq_iff r.baseline m.project.baseline)

manifest_sources-ok_iff :
    (m : Manifest) (out : List String)
    → (manifest_sources m.modules ≡ ok out)
      ↔ (All IsNormal (sources_of m) × (out ≡ extend [] (sources_of m)))
unfolding manifest_sources
manifest_sources-ok_iff m out = add_sources-ok_iff [] (sources_of m) out

-- A chain of `?` succeeds exactly when each part does.
chained :
    {E A : Type 0} (a b : Result E Unit) (c : Result E A) (k : A → Result E Unit)
    → ((a >>= λ _. b >>= λ _. c >>= k) ≡ ok tt)
      ↔ ((a ≡ ok tt) × (b ≡ ok tt) × ((x : A) × (c ≡ ok x) × (k x ≡ ok tt)))
chained (ok t) (ok u) (ok x) k =
    (λ h. (refl, refl, (x, refl, h)), λ (a, b, (y, e, h)). let same : x ≡ y = cc e in rw same h)
chained (ok t) (ok u) (err e) k = (λ h. cc h, λ (a, b, (y, e, h)). cc e)
chained (ok t) (err e) c k = (λ h. cc h, λ v. cc v.1)
chained (err e) b c k = (λ h. cc h, λ v. cc v.0)

-- A report is verified against a manifest exactly when it is valid, was made from a manifest with
-- that digest and baseline, the sources of all modules are in normal form, each measured file is
-- one of them, and the rows of the modules and the totals are those that the measured files give.
pub verify_report_manifest_iff :
    (r : CoverageReport) (m : Manifest) (manifest_sha256 : String)
    → (verify_report_manifest r m manifest_sha256 ≡ ok tt) ↔ Agrees r m manifest_sha256
unfolding verify_report_manifest
verify_report_manifest_iff r m d =
    let checked =
      chained (validate_report r) (check_baseline r m d) (manifest_sources m.modules)
        (check_sums r m) in
    let valid = validate_report_iff r in
    let baseline = check_baseline-ok_iff r m d in
    let sums = check_sums-ok_iff r m in
    (
      λ h.
          let (a, b, (sources, c, e)) = checked.0 h in
          let (normal, listed) = (manifest_sources-ok_iff m sources).0 c in
          record {
            valid = valid.0 a;
            digest = (baseline.0 b).0;
            baseline = (baseline.0 b).1;
            sources = normal;
            sums = sums.0 (rw listed at e);
          },
      λ v. checked.1 (
        valid.1 v.valid,
        baseline.1 (v.digest, v.baseline),
        (
          extend [] (sources_of m),
          (manifest_sources-ok_iff m (extend [] (sources_of m))).1 (v.sources, refl),
          sums.1 v.sums,
        ),
      ),
    )
