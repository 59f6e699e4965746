-- ===== src/Tests/Manifests.antt =====
-- Small manifests of each kind.
use mathlib.Core.List.{Permᴰ}
use hen_kai_pan.Prelude.{true, [], ◌∷◌, ◌≡◌, refl, Option, none, some}
use hen_kai_pan.Strings.{
  Text, contains_any, cut, fields, has_prefix, is_digit, lit, path_base, scan_lines, text_eq,
  text_lt, trim_prefix, trim_space,
}
use hen_kai_pan.Threats.Records.{Dependency}
use hen_kai_pan.Threats.Manifest.Result.{ok}
use hen_kai_pan.Threats.Manifest.Npm.{PackageJson, resolve_npm_version}
use hen_kai_pan.Threats.Manifest.Npm.MapOrder.{SameDocument}
use hen_kai_pan.Threats.Manifest.Parse.{parse_manifest}
use hen_kai_pan.Threats.Manifest.Parse.Laws.{
  parse_manifest_sound, parse_manifest-map_order, IsInventory,
}
use hen_kai_pan.Threats.Manifest.Sort.{sort_rows}
use hen_kai_pan.Threats.Manifest.Sort.Laws.{IsSorted}
use hen_kai_pan.Threats.Manifest.GoMod.{parse_go_mod}

abbrev no_decoder : Text → Option PackageJson
no_decoder content = none

abbrev go_mod : Text
go_mod = lit "module app\nrequire github.com/b v2.0.0\nrequire github.com/a v1.2.3\n"

abbrev row_a : Dependency
row_a = record {
  ecosystem = lit "go";
  name = lit "github.com/a";
  version = lit "v1.2.3";
  source_file = lit "api/go.mod";
}

abbrev row_b : Dependency
row_b = record {
  ecosystem = lit "go";
  name = lit "github.com/b";
  version = lit "v2.0.0";
  source_file = lit "api/go.mod";
}

parsed : parse_manifest no_decoder (lit "api/go.mod") go_mod ≡ ok (row_a ∷ row_b ∷ [])
unfolding parse_manifest trim_space text_eq path_base parse_go_mod scan_lines cut has_prefix fields
    sort_rows text_lt
parsed = refl

parse_manifest_sound_example :
    IsInventory (lit "api/go.mod") (row_a ∷ row_b ∷ []) × IsSorted (row_a ∷ row_b ∷ [])
parse_manifest_sound_example =
    parse_manifest_sound no_decoder (lit "api/go.mod") go_mod (row_a ∷ row_b ∷ []) parsed

abbrev first_order : PackageJson
first_order = record {
  dependencies = (lit "a", lit "1.0.0") ∷ (lit "b", lit "2.0.0") ∷ [];
  dev_dependencies = [];
}

abbrev second_order : PackageJson
second_order = record {
  dependencies = (lit "b", lit "2.0.0") ∷ (lit "a", lit "1.0.0") ∷ [];
  dev_dependencies = [];
}

abbrev first_decoder : Text → Option PackageJson
first_decoder content = some first_order

abbrev second_decoder : Text → Option PackageJson
second_decoder content = some second_order

is_package_json : text_eq (path_base (lit "web/package.json")) (lit "package.json") ≡ true
unfolding path_base text_eq
is_package_json = refl

same_document : SameDocument first_order second_order
same_document = record { dependencies = Permᴰ.swap refl refl; dev_dependencies = Permᴰ.nil }

parse_manifest-map_order_example :
    parse_manifest first_decoder (lit "web/package.json") (lit "{}")
    ≡ parse_manifest second_decoder (lit "web/package.json") (lit "{}")
parse_manifest-map_order_example =
    parse_manifest-map_order first_decoder second_decoder (lit "web/package.json") (lit "{}")
      first_order second_order is_package_json refl refl same_document

resolves : resolve_npm_version (lit " 1.2.3") ≡ some (lit "1.2.3")
unfolding resolve_npm_version trim_space text_eq contains_any has_prefix trim_prefix is_digit
resolves = refl
