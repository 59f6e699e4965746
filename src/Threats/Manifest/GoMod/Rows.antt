-- ===== src/Threats/Manifest/GoMod/Rows.antt =====
-- The rows of go.mod.
use hen_kai_pan.Prelude.{Bool, false, List, [], ◌∷◌, All, All-append, ◌≡◌, refl}
use hen_kai_pan.Strings.{Text, lit, is_empty, fields, fields-All, scan_lines}
use hen_kai_pan.Threats.Manifest.Result.{ok, ◌>>=◌, max_token}
use hen_kai_pan.Threats.Manifest.Row.{
  IsRow, Yields, yields, fails, Yields-bind, Yields-if, Yields-reject, AllRows,
}
use hen_kai_pan.Threats.Manifest.GoMod.{
  GoMod, parse_go_mod, go_start, go_line, go_lines, go_finish, directive, go_row, add_row,
}

module _ (file : Text) where
  abbrev GoRows : GoMod → Type 0
  GoRows st = All (IsRow (lit "go") file) st.deps

  go_row-IsRow :
      (words : List Text)
      → All (λ f. is_empty f ≡ false) words
      → Yields (IsRow (lit "go") file) (go_row file words)
  unfolding go_row
  go_row-IsRow (name ∷ version ∷ rest) h =
      yields (record { ecosystem = refl; source_file = refl; version = h.1.0 })
  go_row-IsRow (name ∷ []) h = fails
  go_row-IsRow [] h = fails

  go_add-IsRow :
      (st : GoMod) (words : Text)
      → GoRows st
      → Yields GoRows (do row ← go_row file (fields words); ok (add_row st row))
  unfolding add_row
  go_add-IsRow st words h =
      Yields-bind (go_row file (fields words)) _ (go_row-IsRow (fields words) (fields-All words))
        (λ row r. yields (All-append (IsRow (lit "go") file) st.deps (row ∷ []) h (r, tt)))

  directive-IsRow : (st : GoMod) (line : Text) → GoRows st → Yields GoRows (directive file st line)
  unfolding directive
  directive-IsRow st line h = search (Yields-if, yields, go_add-IsRow st) depth 9

  go_line-IsRow : (st : GoMod) (text : Text) → GoRows st → Yields GoRows (go_line file st text)
  unfolding go_line
  go_line-IsRow st text h = search (Yields-if, yields, directive-IsRow st)

  go_lines-IsRow :
      (st : GoMod) (lines : List Text) → GoRows st → Yields GoRows (go_lines file st lines)
  unfolding go_lines
  go_lines-IsRow st [] h = yields h
  go_lines-IsRow st (line ∷ lines) h =
      Yields-bind (go_line file st line) _ (go_line-IsRow st line h)
        (λ next k. go_lines-IsRow next lines k)

go_finish-IsRow :
    (file : Text) (too_long : Bool) (st : GoMod)
    → GoRows file st
    → Yields (AllRows (lit "go") file) (go_finish too_long st)
unfolding go_finish
go_finish-IsRow file too_long st h = search (Yields-reject, yields)

-- Every row of go.mod is of the go ecosystem, names its source and has a version.
pub parse_go_mod-IsRow :
    (file content : Text) → Yields (AllRows (lit "go") file) (parse_go_mod file content)
unfolding parse_go_mod
parse_go_mod-IsRow file content =
    let sc = scan_lines max_token content in
    Yields-bind (go_lines file go_start sc.lines) _ (go_lines-IsRow file go_start sc.lines tt)
      (λ st h. go_finish-IsRow file sc.too_long st h)
