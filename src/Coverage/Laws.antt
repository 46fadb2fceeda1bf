-- ===== src/Coverage/Laws.antt =====
-- Which reports the checks accept.
use chromifer.Base.{
  string_ord, eqb, ℕ, String, ◌≡◌, ◌↔◌, ◌≤◌, ◌<◌, ◌*◌, ◌/◌, refl, false, List, [], ◌∷◌, some, All,
  NoRepeat, In, arith, map, option_beq_iff, eqb_iff, string_eq, option_eq, Bool-cases, inl, inr,
}
use native.Mathlib.Nat.{le-div_iff_mul-le}
use chromifer.Base.Results.{Result, ok, err, ◌>>◌}
use chromifer.Base.Machine.{max_64, sat_mul}
use chromifer.Base.Text.{is_blank}
use chromifer.Base.Sets.{insert}
use chromifer.Manifest.Checks.Laws.{AllNew, AllNew-cons}
use chromifer.Manifest.Path.{normalize_repo_relative_path}
use chromifer.Coverage.Data.{LineCoverage, FileCoverage, ModuleCoverage, CoverageReport}
use chromifer.Coverage.Report.{
  basis_points_of, line_coverage, validate_line_coverage, validate_files, validate_modules,
  validate_report,
}

-- No more lines are covered than there are, and the ratio is theirs.
pub record IsConsistent (l : LineCoverage) : Type 0 where
  pub bounded : l.covered ≤ l.count
  pub ratio : l.basis_points ≡ basis_points_of l.count l.covered

pub record IsValidFile (f : FileCoverage) : Type 0 where
  pub path : normalize_repo_relative_path f.path ≡ some f.path
  pub lines : IsConsistent f.lines

pub record IsValidReport (r : CoverageReport) : Type 0 where
  pub version : is_blank r.llvm_export_version ≡ false
  pub files : All IsValidFile r.files
  pub files_once : NoRepeat (map (λ (f : FileCoverage). f.path) r.files)
  pub modules : All (λ (m : ModuleCoverage). IsConsistent m.lines) r.modules
  pub totals : IsConsistent r.totals.lines

both_ok : {E : Type 0} (a b : Result E Unit) → (a >> b ≡ ok tt) ↔ ((a ≡ ok tt) × (b ≡ ok tt))
both_ok (ok tt) b = (λ h. (refl, h), λ h. h.1)
both_ok (err e) b = (λ h. cc, λ h. cc h.0)

validate_line_coverage-ok_iff :
    (path : String) (l : LineCoverage) → (validate_line_coverage path l ≡ ok tt) ↔ IsConsistent l
unfolding validate_line_coverage line_coverage
validate_line_coverage-ok_iff path l = (
  λ h. record {
    bounded = ground (arith, eqb_iff l.basis_points (basis_points_of l.count l.covered));
    ratio = ground (arith, eqb_iff l.basis_points (basis_points_of l.count l.covered));
  },
  λ c.
      let b : l.covered ≤ l.count = c.bounded in
      let r : l.basis_points ≡ basis_points_of l.count l.covered = c.ratio in
      ground (arith, eqb_iff l.basis_points (basis_points_of l.count l.covered)),
)

IsValidFile-iff :
    (f : FileCoverage)
    → IsValidFile f ↔ ((normalize_repo_relative_path f.path ≡ some f.path) × IsConsistent f.lines)
IsValidFile-iff f = (λ v. (v.path, v.lines), λ v. record { path = v.0; lines = v.1 })

validate_files-ok_iff :
    (paths : List String) (files : List FileCoverage)
    → (validate_files paths files ≡ ok tt)
      ↔ (All IsValidFile files × AllNew paths (map (λ (f : FileCoverage). f.path) files))
unfolding validate_files
validate_files-ok_iff paths [] = (λ h. (tt, (tt, tt)), λ h. refl)
validate_files-ok_iff paths (f ∷ files) = ground (
  arith,
  option_beq_iff (normalize_repo_relative_path f.path) (some f.path),
  IsValidFile-iff f,
  AllNew-cons paths f.path (map (λ (f : FileCoverage). f.path) files),
  both_ok (validate_line_coverage f.path f.lines) (validate_files (insert f.path paths) files),
  validate_line_coverage-ok_iff f.path f.lines,
  validate_files-ok_iff (insert f.path paths) files,
)

validate_modules-ok_iff :
    (modules : List ModuleCoverage)
    → (validate_modules modules ≡ ok tt)
      ↔ All (λ (m : ModuleCoverage). IsConsistent m.lines) modules
unfolding validate_modules
validate_modules-ok_iff [] = (λ h. tt, λ h. refl)
validate_modules-ok_iff (m ∷ modules) = ground (
  arith,
  both_ok (validate_line_coverage m.module_id m.lines) (validate_modules modules),
  validate_line_coverage-ok_iff m.module_id m.lines,
  validate_modules-ok_iff modules,
)

-- Where the part is at most the whole and `part * 10_000` fits in 64 bits, the ratio is 10,000
-- basis points exactly when the part is the whole.
pub basis_points_of-full_iff :
    (whole part : ℕ)
    → part ≤ whole
    → part * 10000 ≤ max_64
    → (basis_points_of whole part ≡ 10000) ↔ (part ≡ whole)
unfolding basis_points_of
basis_points_of-full_iff whole part h k = elim (Bool-cases (eqb whole 0)) [
  | inl e ↦ rw e (λ _. ground arith, λ _. refl)
  | inr e ↦
      let positive : 0 < whole = ground arith in
      let full = le-div_iff_mul-le {x = 10000} {y = sat_mul max_64 part 10000} positive in
      rw e (
        λ q.
            let reached : 10000 ≤ sat_mul max_64 part 10000 / whole = omega arith in
            let enough = full.0 reached in omega arith,
        λ q. let reached = full.1 (omega arith) in omega arith,
      )
]

-- `validate_report` accepts a report exactly when the export's version has text, each file has a
-- path in normal form that is listed once, and each count of lines, of the files, the modules and
-- the total, covers no more lines than there are and has their ratio.
pub validate_report_iff : (r : CoverageReport) → (validate_report r ≡ ok tt) ↔ IsValidReport r
unfolding validate_report
validate_report_iff r =
    let files = validate_files-ok_iff [] r.files in
    let modules = validate_modules-ok_iff r.modules in
    let totals = validate_line_coverage-ok_iff "totals" r.totals.lines in
    let inner =
      both_ok (validate_modules r.modules) (validate_line_coverage "totals" r.totals.lines) in
    let outer =
      both_ok (validate_files [] r.files)
        (validate_modules r.modules >> validate_line_coverage "totals" r.totals.lines) in
    elim (Bool-cases (is_blank r.llvm_export_version)) [
      | inl e ↦ rw e (λ h. cc, λ v. cc (e, v.version))
      | inr e ↦ rw e (
        λ h.
            let (a, b) = outer.0 h in
            let (c, d) = inner.0 b in
            record {
              version = e;
              files = (files.0 a).0;
              files_once = (files.0 a).1.1;
              modules = modules.0 c;
              totals = totals.0 d;
            },
        λ v. outer.1 (
          files.1
              (v.files, (nothing_in (map (λ (f : FileCoverage). f.path) r.files), v.files_once)),
          inner.1 (modules.1 v.modules, totals.1 v.totals),
        ),
      )
    ]
  where
    nothing_in : (xs : List String) → All (λ x. ¬ In x []) xs
    nothing_in [] = tt
    nothing_in (x ∷ xs) = (λ i. elim i [ ], nothing_in xs)
