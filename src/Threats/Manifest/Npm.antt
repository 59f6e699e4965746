-- ===== src/Threats/Manifest/Npm.antt =====
-- package.json: `parsePackageJSON` and `resolveNPMVersion`. The decoded document is an argument; a Go map
-- is the list of its entries in the order that the iteration happens to take.
pub mod Rows
pub mod Exact
pub mod MapOrder
use hen_kai_pan.Prelude.{
  ℕ, Bool, true, false, List, [], ◌∷◌, ◌++◌, ◌||◌, ◌&&◌, not, if◌then◌else◌, Option, none, some,
  ◌≡◌, refl, arith,
}
use hen_kai_pan.Strings.{
  Text, lit, text_eq, is_empty, trim_space, has_prefix, trim_prefix, contains_any, is_digit,
}
use hen_kai_pan.Threats.Records.{Dependency}
use hen_kai_pan.Threats.Manifest.Result.{Result, ok, err, bad_json}

pub record PackageJson : Type 0 where
  pub dependencies : List (Text × Text)
  pub dev_dependencies : List (Text × Text)

starts_with_digit : Text → Bool
starts_with_digit [] = false
starts_with_digit (c ∷ s) = is_digit c

-- `none` is Go's `("", false)`.
unfoldable pub resolve_npm_version : Text → Option Text
unfolding starts_with_digit is_empty
resolve_npm_version spec =
    let s = trim_space spec in
    let bare = trim_prefix (trim_prefix s (lit "=")) (lit "v") in
    if is_empty s || text_eq s (lit "*") || text_eq s (lit "latest")
    then none
    else if contains_any s (lit " ,|")
    then none
    else if has_prefix s (lit "^") || has_prefix s (lit "~")
    then none
    else if is_empty bare
    then none
    else if starts_with_digit bare
    then some bare
    else none

abbrev npm_row : Text → Text → Text → Dependency
npm_row source_file name version = record {
  ecosystem = lit "npm";
  name = name;
  version = version;
  source_file = source_file;
}

cons_resolved : Text → Text → Option Text → List Dependency → List Dependency
cons_resolved source_file name none rows = rows
cons_resolved source_file name (some version) rows = npm_row source_file name version ∷ rows

pub scope_rows : Text → List (Text × Text) → List Dependency
scope_rows source_file [] = []
scope_rows source_file ((name, spec) ∷ scope) =
    cons_resolved source_file name (resolve_npm_version spec) (scope_rows source_file scope)

-- The loop over the two scopes.
unfoldable pub document_rows : Text → PackageJson → List Dependency
document_rows file p = scope_rows file p.dependencies ++ scope_rows file p.dev_dependencies

-- `decoded` is what `json.Unmarshal` makes of the data, `none` its error.
unfoldable pub parse_package_json : Text → Option PackageJson → Result (List Dependency)
unfolding scope_rows cons_resolved document_rows
parse_package_json source_file none = err bad_json
parse_package_json source_file (some pkg) = ok (document_rows source_file pkg)
