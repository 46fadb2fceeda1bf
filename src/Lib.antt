-- ===== src/Lib.antt =====
-- Chromifer plans the move of a C++ code base to Rust, module by module. A manifest lists target
-- platforms, compatibility gates and modules with their dependencies, and the planner says which
-- step of which module is allowed. All paths below are from the repository's root.
--
-- Base holds what the parts share: Boolean tests, lists, equality and order as instance
-- arguments, `BTreeSet` and `BTreeMap` as sorted lists, the stable sort of `sort_by`, and text.
--
-- Manifest (crates/chromifer-manifest/src/lib.rs) is the data of a manifest and what is asked of
-- it. Manifest/Data has its records and enumerations, `Manifest::module` (find_module) and
-- `Manifest::gate` (find_gate); Manifest/Wire is the hand-written `Deserialize` of a gate, on the
-- fields that serde finds, beside the derived `Serialize`; Manifest/Path is
-- `normalize_repo_relative_path`, on a platform whose separator is `/`; Manifest/Checks and
-- Manifest/Validate are `Manifest::validate` (validate), whose list of errors the helpers build
-- in the source's order; Manifest/Cycle is `find_cycle`. A `visit` there takes fuel, one more
-- than there are modules: each call that goes down marks a module that had no mark, so the fuel
-- is not used up. Manifest/Validate/Spec says what a valid manifest is.
--
-- Planner (crates/chromifer-planner/src/lib.rs) takes a manifest as it is, valid or not.
-- `assess_transition` finds the module and collects blockers, and `migration_frontier` assesses
-- the next step of every module and sorts those that are allowed. `blockers` and
-- `cross_language_edges`, which the source mutates, are returned by each helper and put together
-- in order. Planner/Spec says when a step is allowed, by the code: it does not look at the
-- boundary of an edge whose other end is in Rust, where docs/architecture.md and docs/gn-
-- import.md say that an unclassified edge always blocks. Planner/Safety takes such steps in
-- sequence: the manifest's author writes the new state into the file, and the relation Reaches
-- does that to the model's manifest.
--
-- Coverage (crates/chromifer-coverage/src/lib.rs) checks a coverage report. Coverage/Report is
-- `validate_report`, and Coverage/Totals is what a report aggregates (`aggregate_modules`,
-- `aggregate_totals`) and `verify_report_manifest`, which takes the digest of the manifest's
-- bytes as an argument. It uses the manifest's path normalization. Saturating sums stop at 2^64 -
-- 1; the plain `sum` of the totals is taken to wrap around, as a release build does.
--
-- Components (crates/chromifer-components/src/lib.rs) measures groups of modules. Components/Risk
-- has `test_coverage_proxy`, `measured_source_coverage`, `calculate_risk` and what they call;
-- Components/Summary is `summarize_component` on a group and its incident metrics, whose loop
-- over the modules collects sorted sets; Components/Ranking is the ranking that ends
-- `analyze_components_with_coverage`. Components/Groups is `build_groups` with the paths and
-- owners of modules, Components/Ids is `assign_component_ids` with `sanitize_id` and `fnv1a_32`,
-- Components/Edges is `map_modules_to_components` and `build_component_edges`, and
-- Components/Analysis puts them together; Components/Analysis/Members says which component a
-- module is in, by what is reported. An unresolved include is a pair of its two fields, in the
-- order of the derived comparison.
--
-- Owners (crates/chromifer-owners/src/lib.rs) finds the owners of the sources of a manifest in
-- OWNERS files. Owners/Parse is `parse_owners`, and Owners/Parse/Words says what an owner's
-- address and a rule's pattern are without the tests of the code. Owners/Glob is `glob_matches`
-- on the UTF-8 bytes of its texts, and Owners/Include resolves the paths of included files.
-- Owners/Resolve has `Resolver`, whose cache each operation takes and returns (`parse_file`,
-- `resolve_directives`, `evaluate_owner_file`); Owners/Source is `resolve_source`, Owners/Summary
-- is `summarize_module_ownership`, and Owners/Scan is `scan_ownership`, which normalizes paths
-- and validates the result with Manifest. Owners/Resolve/Direct evaluates a file without the
-- cache and serves as a specification, as do the relations Names, for one file and what it
-- includes, and Inherits, for the directories above a source. The tree of files below the root is
-- a record of functions, a parameter; opening the root itself is not modelled, and the tree does
-- not change during a scan. The recursion through included files takes fuel: each nested call
-- adds a file to the stack that was not on it, so one more than there are files is enough.
--
-- Attestation (crates/chromifer-attestation/src/lib.rs) signs the digest of an evidence file and
-- verifies such statements. Attestation/Hex has `encode_hex`, `decode_array` and `is_lower_hex`,
-- Attestation/Disk has `read_regular_file`, `reject_output_alias` and `write_or_check`,
-- Attestation/Sign has `sign_and_write` and `derive_public_key` with the reading of keys, and
-- Attestation/Verify is `verify`. Ed25519, SHA-256 and JSON are a record of functions, a
-- parameter, and what is asked of them is the record IsLibrary. The disk is a record that the
-- operations take and return: a path leads to a file by its number, which stands for its device
-- and inode, so two paths can lead to one file. It does not change between the steps of an
-- operation. Two paths are equal if they have the same components, by Manifest/Path. The code for
-- platforms other than Unix and the overwriting of secrets in memory are not modelled.
--
-- Texts are strings of characters, compared by code point, which is the order of their UTF-8
-- bytes. Line numbers, counts and the schema version are natural numbers, since nothing is added
-- to them but the counts of edges, which are bounded by the length of the manifest. Not modelled:
-- reading and writing TOML and JSON, the texts of errors, the command line and the other crates.
-- Functions that take a file of coverage use Coverage, and those that ask whether a gate covers a
-- target use the planner's test, which is the same expression.
pub mod Base
pub mod Manifest
pub mod Planner
pub mod Coverage
pub mod Components
pub mod Owners
pub mod Attestation
