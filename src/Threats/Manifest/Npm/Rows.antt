-- ===== src/Threats/Manifest/Npm/Rows.antt =====
-- The rows of package.json.
use hen_kai_pan.Prelude.{
  false, List, [], ◌∷◌, All, All-append, ◌≡◌, refl, arith, Option, none, some,
}
use hen_kai_pan.Strings.{Text, lit, is_empty}
use hen_kai_pan.Threats.Records.{Dependency}
use hen_kai_pan.Threats.Manifest.Row.{IsRow, Yields, yields, fails, AllRows}
use hen_kai_pan.Threats.Manifest.Npm.{
  PackageJson, parse_package_json, scope_rows, cons_resolved, resolve_npm_version,
}

resolved_nonempty : (spec v : Text) → resolve_npm_version spec ≡ some v → is_empty v ≡ false
unfolding resolve_npm_version
resolved_nonempty spec v h = ground arith

cons_resolved-IsRow :
    (file name spec : Text) (o : Option Text) (rows : List Dependency)
    → resolve_npm_version spec ≡ o
    → All (IsRow (lit "npm") file) rows
    → All (IsRow (lit "npm") file) (cons_resolved file name o rows)
unfolding cons_resolved
cons_resolved-IsRow file name spec none rows e h = h
cons_resolved-IsRow file name spec (some v) rows e h =
    (record { ecosystem = refl; source_file = refl; version = resolved_nonempty spec v e }, h)

pub scope_rows-IsRow :
    (file : Text) (scope : List (Text × Text))
    → All (IsRow (lit "npm") file) (scope_rows file scope)
unfolding scope_rows
scope_rows-IsRow file [] = tt
scope_rows-IsRow file ((name, spec) ∷ scope) =
    cons_resolved-IsRow file name spec _ _ refl (scope_rows-IsRow file scope)

-- Every row of package.json is of the npm ecosystem, names its source and has a version.
pub parse_package_json-IsRow :
    (file : Text) (doc : Option PackageJson)
    → Yields (AllRows (lit "npm") file) (parse_package_json file doc)
unfolding parse_package_json
parse_package_json-IsRow file none = fails
parse_package_json-IsRow file (some pkg) = yields (
    All-append (IsRow (lit "npm") file) _ _ (scope_rows-IsRow file pkg.dependencies)
      (scope_rows-IsRow file pkg.dev_dependencies))
