-- ===== src/Threats/Manifest/Requirements.antt =====
-- requirements.txt: `parseRequirementsTxt`. A line gives a row or is skipped.
pub mod Rows
use hen_kai_pan.Prelude.{
  ℕ, Bool, true, false, List, [], ◌∷◌, ◌++◌, ◌||◌, ◌==◌, any, if◌then◌else◌, Option, none, some,
}
use hen_kai_pan.Strings.{
  Text, lit, is_empty, trim_space, trim_set, to_lower, cut, contains, has_prefix, scan_lines,
  Scanned,
}
use hen_kai_pan.Threats.Records.{Dependency}
use hen_kai_pan.Threats.Manifest.Result.{Result, ok, err, line_too_long, max_token}

-- `if idx := strings.Index(line, sep); idx >= 0 { line = strings.TrimSpace(line[:idx]) }`
unfoldable pub strip_from : Text → Text → Text
strip_from line sep =
    let (before, after, found) = cut line sep in if found then trim_space before else line

unfoldable pub before_any : Text → Text → Text
before_any set [] = []
before_any set (c ∷ s) =
    let rest = before_any set s in if any (λ d. c == d) set then [] else c ∷ rest

-- The version: up to a comma or a blank, without quotes.
unfoldable pub pip_version : Text → Text
pip_version raw =
    let version = trim_space raw in
    let cut_version = trim_space (before_any (lit ", \t") version) in
    trim_set (if any (λ c. any (λ d. c == d) (lit ", \t")) version then cut_version else version)
      (lit "\"'")

-- The name without its extras; `none` if the bracket is not closed.
unfoldable pub pip_name : Text → Option Text
pip_name raw =
    let name = trim_space raw in
    let (before, extras, found) = cut name (lit "[") in
    if found
    then (if contains (lit "[" ++ extras) (lit "]") then some (trim_space before) else none)
    else some name

pip_row : Text → Option Text → Text → Option Dependency
pip_row source_file none version = none
pip_row source_file (some name) version =
    if is_empty name || is_empty version
    then none
    else some (record {
      ecosystem = lit "pip";
      name = to_lower name;
      version = version;
      source_file = source_file;
    })

-- The part of the loop body behind the comment handling.
requirement : Text → Text → Option Dependency
requirement source_file line =
    let (name, version, found) = cut line (lit "==") in
    if found then pip_row source_file (pip_name name) (pip_version version) else none

requirement_line : Text → Text → Option Dependency
requirement_line source_file text =
    let line = trim_space text in
    if is_empty line || has_prefix line (lit "#") || has_prefix line (lit "-")
    then none
    else requirement source_file (strip_from (strip_from line (lit ";")) (lit "#"))

cons_row : Option Dependency → List Dependency → List Dependency
cons_row none rows = rows
cons_row (some row) rows = row ∷ rows

requirement_lines : Text → List Text → List Dependency
requirement_lines source_file [] = []
requirement_lines source_file (line ∷ lines) =
    cons_row (requirement_line source_file line) (requirement_lines source_file lines)

unfoldable pub parse_requirements_txt : Text → Text → Result (List Dependency)
unfolding requirement_lines cons_row requirement_line requirement pip_row pip_name pip_version
    strip_from before_any is_empty
parse_requirements_txt source_file content =
    let sc = scan_lines max_token content in
    if sc.too_long then err line_too_long else ok (requirement_lines source_file sc.lines)
