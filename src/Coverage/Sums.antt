-- ===== src/Coverage/Sums.antt =====
-- What the aggregates of measured files count, and which reports agree with a manifest.
use chromifer.Base.{
  ℕ, min, ◌∙◌, String, ◌≡◌, ◌≤◌, ◌+◌, refl, sym, List, [], ◌∷◌, ◌++◌, Option, none, some, All,
  arith, if◌then◌else◌, inl, inr, length, filter, is_some, not, length-append, append_assoc,
  append-nil, string_ord, Bool-cases,
}
use chromifer.Base.Machine.{max_64}
use chromifer.Base.Sets.{TreeMap, get, put, get-put, same}
use chromifer.Manifest.Data.{Module}
use chromifer.Coverage.Data.{LineCoverage, FileCoverage, ModuleCoverage}
use chromifer.Coverage.Report.{line_coverage}
use chromifer.Coverage.Totals.{
  Measured, nothing_measured, add_source, measure_sources, module_coverage, aggregate_modules,
  measured_onto,
}
use chromifer.Coverage.Laws.{IsConsistent, IsValidFile}

-- The entries of a map cover no more lines than they count.
abbrev pub AllBounded : TreeMap String LineCoverage → Type 0
AllBounded measured =
    (s : String) (l : LineCoverage) → get measured s ≡ some l → l.covered ≤ l.count

-- The sum over the entries of some sources, where a source that is listed again counts again
abbrev pub value_of : (LineCoverage → ℕ) → Option LineCoverage → ℕ
value_of value none = 0
value_of value (some l) = value l

abbrev pub sum_over : (LineCoverage → ℕ) → TreeMap String LineCoverage → (sources : List String) → ℕ
sum_over value measured [] = 0
sum_over value measured (s ∷ sources) =
    value_of value (get measured s) + sum_over value measured sources

-- The row of a module: each source is measured or missing, the missing ones are those without an
-- entry, in their order, lines are the sums over the entries, and no more are covered than counted.
pub record IsRow (measured : TreeMap String LineCoverage) (m : Module) (row : ModuleCoverage)
    : Type 0 where
  pub named : row.module_id ≡ m.id
  pub total : row.total_sources ≡ length m.sources
  pub counted : row.measured_sources + length row.missing_sources ≡ row.total_sources
  pub missing : row.missing_sources ≡ filter (λ s. not (is_some (get measured s))) m.sources
  pub lines : IsConsistent row.lines
  pub line_count : row.lines.count ≡ min (sum_over (λ l. l.count) measured m.sources) max_64
  pub covered_lines : row.lines.covered ≡ min (sum_over (λ l. l.covered) measured m.sources) max_64

add_source-missing :
    (acc : Measured) (s : String) (o : Option LineCoverage) (rest : List String)
    → (add_source acc s o).missing_sources ++ rest
      ≡ acc.missing_sources ++ (if not (is_some o) then s ∷ rest else rest)
add_source-missing acc s none rest = append_assoc acc.missing_sources (s ∷ []) rest
add_source-missing acc s (some l) rest = refl

add_source-counted :
    (acc : Measured) (s : String) (o : Option LineCoverage)
    → (add_source acc s o).measured_sources + length (add_source acc s o).missing_sources
      ≡ acc.measured_sources + length acc.missing_sources + 1
add_source-counted acc s none = omega (arith, length-append acc.missing_sources (s ∷ []))
add_source-counted acc s (some l) = omega arith

add_source-bounded :
    (acc : Measured) (s : String) (o : Option LineCoverage)
    → ((l : LineCoverage) → o ≡ some l → l.covered ≤ l.count)
    → acc.covered_lines ≤ acc.line_count
    → (add_source acc s o).covered_lines ≤ (add_source acc s o).line_count
add_source-bounded acc s none b h = h
add_source-bounded acc s (some l) b h = let k = b l refl in omega arith

add_source-counts :
    (acc : Measured) (s : String) (o : Option LineCoverage)
    → acc.line_count ≤ max_64
    → acc.covered_lines ≤ max_64
    → ((add_source acc s o).line_count ≡ min (acc.line_count + value_of (λ l. l.count) o) max_64)
      × ((add_source acc s o).covered_lines
          ≡ min (acc.covered_lines + value_of (λ l. l.covered) o) max_64)
add_source-counts acc s none h k = (omega arith, omega arith)
add_source-counts acc s (some l) h k = (refl, refl)

from_zero : (a b : ℕ) → a ≡ min (0 + b) max_64 → a ≡ min b max_64
from_zero a b h = omega arith

capped_sum : (a b c d : ℕ) → c ≡ min (a + b) max_64 → min (c + d) max_64 ≡ min (a + (b + d)) max_64
capped_sum a b c d h = omega arith

module _ (measured : TreeMap String LineCoverage) where
  measure_sources-missing :
      (acc : Measured) (sources : List String)
      → (measure_sources measured acc sources).missing_sources
        ≡ acc.missing_sources ++ filter (λ s. not (is_some (get measured s))) sources
  unfolding measure_sources
  measure_sources-missing acc [] = sym (append-nil _)
  measure_sources-missing acc (s ∷ sources) =
      measure_sources-missing (add_source acc s (get measured s)) sources
      ∙ add_source-missing acc s (get measured s) _

  measure_sources-counted :
      (acc : Measured) (sources : List String)
      → (measure_sources measured acc sources).measured_sources
          + length (measure_sources measured acc sources).missing_sources
        ≡ acc.measured_sources + length acc.missing_sources + length sources
  unfolding measure_sources
  measure_sources-counted acc [] = omega arith
  measure_sources-counted acc (s ∷ sources) = omega (
    arith,
    measure_sources-counted (add_source acc s (get measured s)) sources,
    add_source-counted acc s (get measured s),
  )

  measure_sources-bounded :
      (acc : Measured) (sources : List String)
      → AllBounded measured
      → acc.covered_lines ≤ acc.line_count
      → (measure_sources measured acc sources).covered_lines
        ≤ (measure_sources measured acc sources).line_count
  unfolding measure_sources
  measure_sources-bounded acc [] b h = h
  measure_sources-bounded acc (s ∷ sources) b h =
      measure_sources-bounded (add_source acc s (get measured s)) sources b
        (add_source-bounded acc s (get measured s) (b s) h)

  measure_sources-counts :
      (acc : Measured) (sources : List String)
      → acc.line_count ≤ max_64
      → acc.covered_lines ≤ max_64
      → ((measure_sources measured acc sources).line_count
          ≡ min (acc.line_count + sum_over (λ l. l.count) measured sources) max_64)
        × ((measure_sources measured acc sources).covered_lines
            ≡ min (acc.covered_lines + sum_over (λ l. l.covered) measured sources) max_64)
  unfolding measure_sources
  measure_sources-counts acc [] h k = (omega arith, omega arith)
  measure_sources-counts acc (s ∷ sources) h k =
      let (a, b) = add_source-counts acc s (get measured s) h k in
      let (c, d) =
        measure_sources-counts (add_source acc s (get measured s)) sources (omega arith)
          (omega arith) in
      (c ∙ capped_sum _ _ _ _ a, d ∙ capped_sum _ _ _ _ b)

  module_coverage-IsRow :
      (m : Module)
      → AllBounded measured
      → IsRow measured m
          (module_coverage m.sources m.id (measure_sources measured nothing_measured m.sources))
  unfolding line_coverage
  module_coverage-IsRow m b =
      let counts = measure_sources-counts nothing_measured m.sources (omega arith) (omega arith) in
      record {
        named = refl;
        total = refl;
        counted = omega (arith, measure_sources-counted nothing_measured m.sources);
        missing = measure_sources-missing nothing_measured m.sources;
        lines = record {
          bounded = measure_sources-bounded nothing_measured m.sources b (omega arith);
          ratio = refl;
        };
        line_count = from_zero _ _ counts.0;
        covered_lines = from_zero _ _ counts.1;
      }

-- The rows of two lists, one by one
abbrev pub AreRows : TreeMap String LineCoverage → List Module → List ModuleCoverage → Type 0
AreRows measured [] [] = Unit
AreRows measured (m ∷ modules) (row ∷ rows) = IsRow measured m row × AreRows measured modules rows
AreRows measured _ _ = ⊥

measured_onto-bounded :
    (measured : TreeMap String LineCoverage) (files : List FileCoverage)
    → AllBounded measured
    → All IsValidFile files
    → AllBounded (measured_onto measured files)
unfolding measured_onto
measured_onto-bounded measured [] b v = b
measured_onto-bounded measured (f ∷ files) b v =
    measured_onto-bounded (put f.path f.lines measured) files
      (λ s l e. elim (Bool-cases (same s f.path)) [
        | inl q ↦
            let same_lines : f.lines ≡ l = cc (e, q, get-put f.path s f.lines measured) in
            let k : f.lines.covered ≤ f.lines.count = v.0.lines.bounded in rw same_lines at k
        | inr q ↦ b s l (cc (e, q, get-put f.path s f.lines measured))
      ])
      v.1

nothing-AllBounded : AllBounded []
unfolding get
nothing-AllBounded s l e = cc e

-- The aggregated rows of valid files are one for each module, in order. In each, a source is
-- measured or missing, the missing ones are those without a measured file, the counts of lines are
-- the sums over the measured sources, at most 2^64 - 1, and no more lines are covered than
-- counted.
pub aggregate_modules-AreRows :
    (files : List FileCoverage) (modules : List Module)
    → All IsValidFile files
    → AreRows (measured_onto [] files) modules (aggregate_modules (measured_onto [] files) modules)
unfolding aggregate_modules
aggregate_modules-AreRows files [] v = tt
aggregate_modules-AreRows files (m ∷ modules) v = (
  module_coverage-IsRow (measured_onto [] files) m
      (measured_onto-bounded [] files nothing-AllBounded v),
  aggregate_modules-AreRows files modules v,
)
