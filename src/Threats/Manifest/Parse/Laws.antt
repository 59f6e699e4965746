-- ===== src/Threats/Manifest/Parse/Laws.antt =====
-- What `ParseManifest` promises to the queries and to the matcher.
use hen_kai_pan.Prelude.{true, false, List, [], ◌∷◌, All, All-append, Option, some, ◌≡◌, refl}
use hen_kai_pan.Strings.{Text, lit, is_empty, text_eq, trim_space, path_base}
use hen_kai_pan.Threats.Records.{Dependency}
use hen_kai_pan.Threats.Ecosystem.{osv_ecosystem}
use hen_kai_pan.Threats.Manifest.Result.{Result, ok, err, empty_manifest}
use hen_kai_pan.Threats.Manifest.Row.{
  IsRow, Yields, yields, fails, Yields-bind, Yields-if, Yields-ok, AllRows,
}
use hen_kai_pan.Threats.Manifest.Npm.{PackageJson, parse_package_json, document_rows}
use hen_kai_pan.Threats.Manifest.Npm.Rows.{parse_package_json-IsRow, scope_rows-IsRow}
use hen_kai_pan.Threats.Manifest.Npm.MapOrder.{SameDocument, document_rows-perm}
use hen_kai_pan.Threats.Manifest.GoMod.Rows.{parse_go_mod-IsRow}
use hen_kai_pan.Threats.Manifest.Requirements.Rows.{parse_requirements_txt-IsRow}
use hen_kai_pan.Threats.Manifest.CargoLock.Rows.{parse_cargo_lock-IsRow}
use hen_kai_pan.Threats.Manifest.Sort.{sort_rows}
use hen_kai_pan.Threats.Manifest.Sort.Laws.{
  IsSorted, sort_rows-IsSorted, sort_rows-permutes, sort_rows-perm, All-perm, HasSource,
}
use hen_kai_pan.Threats.Manifest.Parse.{dispatch, parse_manifest}

-- The rows of one manifest, of an ecosystem that OSV knows.
pub record IsInventory (file : Text) (ds : List Dependency) : Type 0 where
  pub ecosystem : Text
  pub known : is_empty (osv_ecosystem ecosystem) ≡ false
  pub rows : AllRows ecosystem file ds

npm-IsInventory :
    (file : Text) (ds : List Dependency) → AllRows (lit "npm") file ds → IsInventory file ds
unfolding osv_ecosystem text_eq is_empty
npm-IsInventory file ds h = record { ecosystem = lit "npm"; known = refl; rows = h }

go-IsInventory :
    (file : Text) (ds : List Dependency) → AllRows (lit "go") file ds → IsInventory file ds
unfolding osv_ecosystem text_eq is_empty
go-IsInventory file ds h = record { ecosystem = lit "go"; known = refl; rows = h }

pip-IsInventory :
    (file : Text) (ds : List Dependency) → AllRows (lit "pip") file ds → IsInventory file ds
unfolding osv_ecosystem text_eq is_empty
pip-IsInventory file ds h = record { ecosystem = lit "pip"; known = refl; rows = h }

cargo-IsInventory :
    (file : Text) (ds : List Dependency) → AllRows (lit "cargo") file ds → IsInventory file ds
unfolding osv_ecosystem text_eq is_empty
cargo-IsInventory file ds h = record { ecosystem = lit "cargo"; known = refl; rows = h }

Yields-map :
    {A : Type 0} {P Q : A → Type 0} {r : Result A} → ((a : A) → P a → Q a) → Yields P r → Yields Q r
Yields-map f (yields {a = a} h) = yields (f a h)
Yields-map f fails = fails

module _ (decode : Text → Option PackageJson) (file content : Text) where
  dispatch-IsInventory : Yields (IsInventory file) (dispatch decode file content)
  unfolding dispatch
  dispatch-IsInventory =
      let npm =
        Yields-map (npm-IsInventory file) (parse_package_json-IsRow file (decode content)) in
      let go = Yields-map (go-IsInventory file) (parse_go_mod-IsRow file content) in
      let pip = Yields-map (pip-IsInventory file) (parse_requirements_txt-IsRow file content) in
      let cargo = Yields-map (cargo-IsInventory file) (parse_cargo_lock-IsRow file content) in
      search (Yields-if, fails, npm, go, pip, cargo)

-- Sorting keeps an inventory and orders it.
abbrev IsSortedInventory : Text → List Dependency → Type 0
IsSortedInventory file ds = IsInventory file ds × IsSorted ds

sort_rows-IsInventory :
    (file : Text) (ds : List Dependency)
    → IsInventory file ds
    → IsSortedInventory file (sort_rows ds)
sort_rows-IsInventory file ds inv = (
  record {
    ecosystem = inv.ecosystem;
    known = inv.known;
    rows = All-perm (IsRow inv.ecosystem file) (sort_rows-permutes ds) inv.rows;
  },
  sort_rows-IsSorted ds,
)

parse_manifest-Yields :
    (decode : Text → Option PackageJson) (file content : Text)
    → Yields (IsSortedInventory file) (parse_manifest decode file content)
unfolding parse_manifest
parse_manifest-Yields decode file content =
    Yields-if (is_empty (trim_space content)) (err empty_manifest) _ (λ e. fails)
      (λ e.
        Yields-bind (dispatch decode file content) _ (dispatch-IsInventory decode file content)
          (λ ds inv. yields (sort_rows-IsInventory file ds inv)))

-- A manifest that parses gives rows of one ecosystem that OSV knows, each with its source file and a
-- version that is not empty, in order of name and version.
pub parse_manifest_sound :
    (decode : Text → Option PackageJson) (file content : Text) (ds : List Dependency)
    → parse_manifest decode file content ≡ ok ds
    → IsInventory file ds × IsSorted ds
parse_manifest_sound decode file content ds h =
    Yields-ok (parse_manifest-Yields decode file content) h

row_source :
    (eco file : Text) (ds : List Dependency) → AllRows eco file ds → All (HasSource eco file) ds
row_source eco file [] h = tt
row_source eco file (d ∷ ds) (r, h) =
    (record { ecosystem = r.ecosystem; source_file = r.source_file }, row_source eco file ds h)

document_rows-AllRows :
    (file : Text) (p : PackageJson) → AllRows (lit "npm") file (document_rows file p)
unfolding document_rows
document_rows-AllRows file p =
    All-append (IsRow (lit "npm") file) _ _ (scope_rows-IsRow file p.dependencies)
      (scope_rows-IsRow file p.dev_dependencies)

-- However Go iterates over the two maps of a package.json, `ParseManifest` returns the same rows in the
-- same order.
pub parse_manifest-map_order :
    (decode decode' : Text → Option PackageJson) (file content : Text) (p q : PackageJson)
    → text_eq (path_base file) (lit "package.json") ≡ true
    → decode content ≡ some p
    → decode' content ≡ some q
    → SameDocument p q
    → parse_manifest decode file content ≡ parse_manifest decode' file content
unfolding parse_manifest dispatch parse_package_json
parse_manifest-map_order decode decode' file content p q base d d' same = rw (
  base,
  d,
  d',
  sort_rows-perm (lit "npm") file (document_rows-perm file same)
      (row_source (lit "npm") file _ (document_rows-AllRows file p)),
)
