-- ===== src/Owners/Tests.antt =====
-- Runs of the scan on a small tree, and the theorems at it.
use chromifer.Base.{
  All, concat_map, map, String, ◌≡◌, ◌≢◌, ◌↔◌, refl, true, false, List, [], ◌∷◌, Option, none, some,
  In, contains, contains_iff, string_eq, list_eq, if◌then◌else◌, ◌==◌, length, arith,
}
use chromifer.Base.Results.{ok, err}
use chromifer.Base.Text.{trim, as_bytes, lines}
use chromifer.Manifest.Data.{Module, SourceOwnership, legacy_cpp}
use chromifer.Manifest.Tests.{part, with_modules}
use chromifer.Owners.Data.{
  RepoPath, path_string, owner, include_file, no_parent, PerFileRule, ParsedOwners, include_cycle,
  no_fuel,
}
use chromifer.Owners.Glob.{glob_matches, items}
use chromifer.Owners.Glob.Laws.{Matches, glob_matches_iff}
use chromifer.Owners.Parse.{parse_owners, valid_owner, parse_expressions, parse_owner_list}
use chromifer.Base.Sort.{sort_by}
use chromifer.Manifest.Path.{normalize_repo_relative_path}
use chromifer.Owners.Parse.Words.{IsPattern}
use chromifer.Owners.Parse.Lists.{IsOwner, parse_owner_list_iff, parse_expressions_iff}
use chromifer.Owners.Parse.Directives.{Parses, IsParsed}
use chromifer.Owners.Parse.Laws.{parse_owners-Parses}
use chromifer.Owners.Include.{Files, parent_path}
use chromifer.Owners.Resolve.{
  LayerOwnership, Resolver, fresh, evaluate_owner_file, selected_directives, matched_directives,
}
use chromifer.Owners.Resolve.Direct.{parsed_file, direct_layer}
use chromifer.Owners.Resolve.Cache.{fresh-IsCoherent, AgreesWith, evaluate_owner_file-AgreesWith}
use chromifer.Owners.Resolve.Names.{Names}
use chromifer.Owners.Resolve.Exact.{evaluate_owner_file-owners}
use chromifer.Owners.Source.{resolve_source, ancestors}
use chromifer.Owners.Source.Inherits.{Inherits}
use chromifer.Owners.Source.Laws.{relative_path, resolve_source-effective}
use chromifer.Owners.Source.Primary.{IsLeveledSource, resolve_source-primary}
use chromifer.Owners.Summary.{summarize_module_ownership}
use chromifer.Owners.Summary.Laws.{
  SomeOwned, OwnsAll, summarize_module_ownership-common, summarize_module_ownership-split,
}
use chromifer.Owners.Scan.{OwnershipScanOutput, scan_ownership}
use chromifer.Owners.Scan.Spec.{IsScanOf}
use chromifer.Owners.Scan.Laws.{scan_ownership-IsScanOf}
use chromifer.Owners.Scan.Fuel.{scan_ownership-total}

abbrev known : List RepoPath
known = ("OWNERS" ∷ []) ∷ ("net" ∷ "OWNERS" ∷ []) ∷ ("shared" ∷ "TEAM" ∷ []) ∷ []

abbrev content : RepoPath → Option String
content path =
    if path == "OWNERS" ∷ []
    then some "root@x.org # all\nfile:/shared/TEAM\nfile:infra:/OWNERS\n"
    else if path == "net" ∷ "OWNERS" ∷ []
    then some "net@x.org\nper-file *.cc=cc@x.org\n"
    else if path == "shared" ∷ "TEAM" ∷ []
    then some "team@x.org\n"
    else none

abbrev tree : Files
tree = record { is_file = contains known; read = content; full_text = λ path. "" }

abbrev rule_on : String → PerFileRule
rule_on e = record { pattern_text = e; directive = no_parent }

glob_run : glob_matches "*.cc" "a.cc" ≡ true
unfolding glob_matches
glob_run = refl

glob_directory_run : glob_matches "*.cc" "a/b.cc" ≡ false
unfolding glob_matches
glob_directory_run = refl

abbrev net_file : RepoPath
net_file = "net" ∷ "OWNERS" ∷ []

abbrev net_parsed : ParsedOwners
net_parsed = record {
  global = owner "net@x.org" ∷ [];
  per_file = record { pattern_text = "*.cc"; directive = owner "cc@x.org" } ∷ [];
  global_noparent = false;
}

abbrev net_layer : LayerOwnership
net_layer = record {
  owners = "cc@x.org" ∷ "net@x.org" ∷ [];
  owner_files = "net/OWNERS" ∷ [];
  unresolved_includes = [];
  stop_inheritance = false;
}

abbrev net_read : Resolver
net_read = record { parsed = (net_file, net_parsed) ∷ []; files_read = net_file ∷ [] }

net_parsed_run : parsed_file tree net_file ≡ ok net_parsed
unfolding parse_owners valid_owner parse_expressions
net_parsed_run = refl

net_layer_run : evaluate_owner_file tree 4 fresh net_file "a.cc" ≡ ok (net_layer, net_read)
unfolding evaluate_owner_file valid_owner parse_expressions
net_layer_run = refl

abbrev net_source : SourceOwnership
net_source = record {
  source = "net/a.cc";
  primary_owners = "cc@x.org" ∷ "net@x.org" ∷ [];
  effective_owners = "cc@x.org" ∷ "net@x.org" ∷ "root@x.org" ∷ "team@x.org" ∷ [];
  owner_files = "OWNERS" ∷ "net/OWNERS" ∷ "shared/TEAM" ∷ [];
  unresolved_includes = record { owner_file = "OWNERS"; include = "infra:/OWNERS" } ∷ [];
  inheritance_stopped_at = none;
}

abbrev all_read : Resolver
all_read = record {
  parsed =
      (
        "OWNERS" ∷ [],
        record {
          global =
              owner "root@x.org" ∷ include_file "/shared/TEAM" ∷ include_file "infra:/OWNERS" ∷ [];
          per_file = [];
          global_noparent = false;
        },
      )
      ∷ (net_file, net_parsed)
      ∷ (
        "shared" ∷ "TEAM" ∷ [],
        record { global = owner "team@x.org" ∷ []; per_file = []; global_noparent = false },
      )
      ∷ [];
  files_read = ("OWNERS" ∷ []) ∷ net_file ∷ ("shared" ∷ "TEAM" ∷ []) ∷ [];
}

net_source_run : resolve_source tree 4 fresh "net/a.cc" ≡ ok (net_source, all_read)
unfolding resolve_source valid_owner parse_expressions
net_source_run = refl

abbrev before : Module
before = record (part "net" legacy_cpp []) { sources = "net/a.cc" ∷ [] }

abbrev output : OwnershipScanOutput
output = record {
  manifest = with_modules (
      record before {
        ownership = some (record {
          primary_owners = net_source.primary_owners;
          effective_owners = net_source.effective_owners;
          common_effective_owners = net_source.effective_owners;
          owner_files = net_source.owner_files;
          unresolved_sources = [];
          unresolved_includes = net_source.unresolved_includes;
          split_ownership = false;
          sources = net_source ∷ [];
        });
      }
      ∷ []);
  summary = record {
    scanned_modules = 1;
    scanned_sources = 1;
    owner_files_read = 3;
    resolved_sources = 1;
    unresolved_sources = 0;
    unresolved_includes = 1;
    split_ownership_modules = 0;
    modules_without_sources = 0;
  };
}

scan_run : scan_ownership tree 4 (with_modules (before ∷ [])) ≡ ok output
unfolding scan_ownership normalize_repo_relative_path valid_owner parse_expressions sort_by
scan_run = refl

-- A file that includes itself
abbrev circle : Files
circle = record {
  is_file = contains known;
  read = λ path. some "file:/OWNERS";
  full_text = λ path. "";
}

circle_run : resolve_source circle 4 fresh "a.cc" ≡ err (include_cycle "OWNERS -> OWNERS")
unfolding resolve_source
circle_run = refl

glob_matches_iff_example :
    (glob_matches "*.cc" "a.cc" ≡ true) ↔ Matches (items (as_bytes "*.cc")) (as_bytes "a.cc")
glob_matches_iff_example = glob_matches_iff "*.cc" "a.cc"

parse_owner_list_iff_example :
    (parse_owner_list "OWNERS" 1 (" a@x.org" ∷ "*" ∷ []) ≡ ok (owner "a@x.org" ∷ owner "*" ∷ []))
    ↔ ((owner "a@x.org" ∷ owner "*" ∷ [] ≡ map (λ o. owner (trim o)) (" a@x.org" ∷ "*" ∷ []))
        × All (λ o. IsOwner (trim o)) (" a@x.org" ∷ "*" ∷ []))
parse_owner_list_iff_example =
    parse_owner_list_iff "OWNERS" 1 (" a@x.org" ∷ "*" ∷ []) (owner "a@x.org" ∷ owner "*" ∷ [])

owner_list_run :
    parse_owner_list "OWNERS" 1 (" a@x.org" ∷ "*" ∷ []) ≡ ok (owner "a@x.org" ∷ owner "*" ∷ [])
unfolding parse_owner_list valid_owner
owner_list_run = refl

parse_expressions_iff_example :
    (parse_expressions "OWNERS" 2 (no_parent ∷ []) ("*.cc" ∷ "a/b" ∷ [])
      ≡ ok (rule_on "*.cc" ∷ rule_on "a/b" ∷ []))
    ↔ ((rule_on "*.cc" ∷ rule_on "a/b" ∷ []
          ≡ concat_map
              (λ e. map (λ d. record { pattern_text = e; directive = d }) (no_parent ∷ []))
              ("*.cc" ∷ "a/b" ∷ []))
        × All IsPattern ("*.cc" ∷ "a/b" ∷ []))
parse_expressions_iff_example =
    parse_expressions_iff "OWNERS" 2 (no_parent ∷ []) ("*.cc" ∷ "a/b" ∷ [])
      (rule_on "*.cc" ∷ rule_on "a/b" ∷ [])

expressions_run :
    parse_expressions "OWNERS" 2 (no_parent ∷ []) ("*.cc" ∷ "a/b" ∷ [])
    ≡ ok (rule_on "*.cc" ∷ rule_on "a/b" ∷ [])
unfolding parse_expressions
expressions_run = refl

parse_owners-Parses_example :
    Parses "OWNERS" 1
      (length (lines "set noparent\n*\nme@x@y"))
      IsParsed
      (parse_owners ("OWNERS" ∷ []) "set noparent\n*\nme@x@y")
unfolding path_string
parse_owners-Parses_example = parse_owners-Parses ("OWNERS" ∷ []) "set noparent\n*\nme@x@y"

evaluate_owner_file-AgreesWith_example :
    AgreesWith tree
      (evaluate_owner_file tree 4 fresh net_file "a.cc")
      (direct_layer tree 4 net_file "a.cc")
evaluate_owner_file-AgreesWith_example =
    evaluate_owner_file-AgreesWith tree 4 fresh net_file "a.cc" (fresh-IsCoherent tree)

evaluate_owner_file-owners_example :
    In "cc@x.org" net_layer.owners
    ↔ Names tree net_file
        (selected_directives net_parsed (matched_directives net_parsed "a.cc"))
        "cc@x.org"
evaluate_owner_file-owners_example =
    evaluate_owner_file-owners tree 4 fresh net_read net_file "a.cc" net_parsed net_layer "cc@x.org"
      (fresh-IsCoherent tree) net_parsed_run net_layer_run

resolve_source-effective_example :
    In "root@x.org" net_source.effective_owners
    ↔ Inherits tree 4
        (relative_path "net/a.cc")
        (ancestors (parent_path (relative_path "net/a.cc")))
        "root@x.org"
resolve_source-effective_example =
    resolve_source-effective tree 4 fresh all_read "net/a.cc" net_source "root@x.org"
      (fresh-IsCoherent tree) net_source_run

resolve_source-primary_example : IsLeveledSource net_source × (net_source.source ≡ "net/a.cc")
resolve_source-primary_example =
    resolve_source-primary tree 4 fresh all_read "net/a.cc" net_source net_source_run

summarize_module_ownership-common_example :
    In "me" (summarize_module_ownership (net_source ∷ [])).common_effective_owners
    ↔ (SomeOwned (net_source ∷ []) × OwnsAll "me" (net_source ∷ []))
summarize_module_ownership-common_example = summarize_module_ownership-common (net_source ∷ []) "me"

summarize_module_ownership-split_example :
    ((summarize_module_ownership (net_source ∷ [])).split_ownership ≡ true) ↔ (
      (s t : SourceOwnership) × In s (net_source ∷ [])
      × In t (net_source ∷ [])
      × (s.primary_owners ≢ t.primary_owners))
summarize_module_ownership-split_example = summarize_module_ownership-split (net_source ∷ [])

scan_ownership-IsScanOf_example : IsScanOf tree 4 (with_modules (before ∷ [])) output
scan_ownership-IsScanOf_example =
    scan_ownership-IsScanOf tree 4 (with_modules (before ∷ [])) output scan_run

scan_ownership-total_example : scan_ownership tree 4 (with_modules (before ∷ [])) ≢ err no_fuel
scan_ownership-total_example =
    scan_ownership-total tree known (λ p h. (contains_iff known p).0 h) 4 (omega arith)
      (with_modules (before ∷ []))
