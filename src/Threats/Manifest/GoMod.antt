-- ===== src/Threats/Manifest/GoMod.antt =====
-- go.mod: `parseGoMod`, a loop over lines with the state below.
pub mod Rows
use hen_kai_pan.Prelude.{Bool, true, false, List, [], ◌∷◌, ◌++◌, ◌||◌, ◌&&◌, not, if◌then◌else◌}
use hen_kai_pan.Strings.{
  Text, lit, text_eq, is_empty, trim_space, fields, cut, contains, has_prefix, scan_lines, Scanned,
}
use hen_kai_pan.Threats.Records.{Dependency}
use hen_kai_pan.Threats.Manifest.Result.{
  Result, ok, err, bad_require, line_too_long, unclosed_require, missing_module, ◌>>=◌, ◌>>◌,
  reject_if, max_token,
}

pub record GoMod : Type 0 where
  pub deps : List Dependency
  pub in_require : Bool
  pub closed_require : Bool
  pub saw_module : Bool

go_row : Text → List Text → Result Dependency
go_row source_file (name ∷ version ∷ rest) =
    ok (record { ecosystem = lit "go"; name = name; version = version; source_file = source_file })
go_row source_file (name ∷ []) = err bad_require
go_row source_file [] = err bad_require

add_row : GoMod → Dependency → GoMod
add_row st row = record st { deps = st.deps ++ row ∷ [] }

-- The part of the loop body behind the comment handling.
directive : Text → GoMod → Text → Result GoMod
directive source_file st line =
    let (require, rest, found) = cut line (lit "require ") in
    if is_empty line
    then ok st
    else if has_prefix line (lit "module ")
    then ok (record st { saw_module = true })
    else if text_eq line (lit "require (") || text_eq line (lit "require(")
    then ok (record st { in_require = true; closed_require = false })
    else if st.in_require && text_eq line (lit ")")
    then ok (record st { in_require = false; closed_require = true })
    else if found && is_empty (trim_space require)
    then (do row ← go_row source_file (fields rest); ok (add_row st row))
    else if not st.in_require
    then ok st
    else do row ← go_row source_file (fields line); ok (add_row st row)

go_line : Text → GoMod → Text → Result GoMod
go_line source_file st text =
    let (before, comment, found) = cut (trim_space text) (lit "//") in
    if not found
    then directive source_file st (trim_space text)
    else if contains (lit "//" ++ comment) (lit "indirect")
    then ok st
    else directive source_file st (trim_space before)

go_lines : Text → GoMod → List Text → Result GoMod
go_lines source_file st [] = ok st
go_lines source_file st (line ∷ lines) = do
  next ← go_line source_file st line
  go_lines source_file next lines

go_finish : Bool → GoMod → Result (List Dependency)
go_finish too_long st = do
  reject_if too_long line_too_long
  reject_if (st.in_require || not st.closed_require) unclosed_require
  reject_if (not st.saw_module) missing_module
  ok st.deps

abbrev go_start : GoMod
go_start = record { deps = []; in_require = false; closed_require = true; saw_module = false }

unfoldable pub parse_go_mod : Text → Text → Result (List Dependency)
unfolding go_lines go_line go_finish directive go_row add_row is_empty
parse_go_mod source_file content =
    let sc = scan_lines max_token content in
    do st ← go_lines source_file go_start sc.lines; go_finish sc.too_long st
