-- ===== src/Threats/Manifest/Parse.antt =====
-- `ParseManifest`: the parser is chosen by the base name of the source file.
pub mod Laws
use hen_kai_pan.Prelude.{Bool, true, false, List, Option, ◌&&◌, ◌||◌, if◌then◌else◌}
use hen_kai_pan.Strings.{
  Text, lit, text_eq, is_empty, trim_space, has_prefix, has_suffix, path_base,
}
use hen_kai_pan.Threats.Records.{Dependency}
use hen_kai_pan.Threats.Manifest.Result.{Result, ok, err, empty_manifest, unsupported, ◌>>=◌}
use hen_kai_pan.Threats.Manifest.Npm.{PackageJson, parse_package_json}
use hen_kai_pan.Threats.Manifest.GoMod.{parse_go_mod}
use hen_kai_pan.Threats.Manifest.Requirements.{parse_requirements_txt}
use hen_kai_pan.Threats.Manifest.CargoLock.{parse_cargo_lock}
use hen_kai_pan.Threats.Manifest.Sort.{sort_rows}

-- The switch on the base name. `decode` is `json.Unmarshal` into the document of package.json.
unfoldable pub dispatch : (Text → Option PackageJson) → Text → Text → Result (List Dependency)
dispatch decode source_file content =
    let base = path_base source_file in
    if text_eq base (lit "package.json")
    then parse_package_json source_file (decode content)
    else if text_eq base (lit "go.mod")
    then parse_go_mod source_file content
    else if text_eq base (lit "Cargo.lock")
    then parse_cargo_lock source_file content
    else if text_eq base (lit "requirements.txt")
        || (has_prefix base (lit "requirements") && has_suffix base (lit ".txt"))
    then parse_requirements_txt source_file content
    else err unsupported

unfoldable pub parse_manifest : (Text → Option PackageJson) → Text → Text → Result (List Dependency)
unfolding dispatch is_empty
parse_manifest decode source_file content =
    if is_empty (trim_space content)
    then err empty_manifest
    else do deps ← dispatch decode source_file content; ok (sort_rows deps)
