-- ===== src/Threats/Manifest/Requirements/Rows.antt =====
-- The rows of requirements.txt.
use hen_kai_pan.Prelude.{
  Bool, true, false, List, [], ◌∷◌, ◌||◌, if◌then◌else◌, All, ◌≡◌, refl, Option, none, some,
}
use hen_kai_pan.Strings.{Text, lit, is_empty, scan_lines}
use hen_kai_pan.Threats.Records.{Dependency}
use hen_kai_pan.Threats.Manifest.Result.{max_token}
use hen_kai_pan.Threats.Manifest.Row.{
  IsRow, Yields, yields, fails, Yields-if, AllRows, or_false_right,
}
use hen_kai_pan.Threats.Manifest.Requirements.{
  parse_requirements_txt, requirement_lines, requirement_line, requirement, cons_row, pip_row,
}

-- A row, if there is one.
data OptRow (file : Text) : Option Dependency → Type 0 where
  no_row : OptRow file none
  a_row : {d : Dependency} → IsRow (lit "pip") file d → OptRow file (some d)

OptRow-if :
    (file : Text) (b : Bool) (m n : Option Dependency)
    → (b ≡ true → OptRow file m)
    → (b ≡ false → OptRow file n)
    → OptRow file (if b then m else n)
OptRow-if file true m n h k = h refl
OptRow-if file false m n h k = k refl

pip_row-IsRow :
    (file : Text) (name : Option Text) (version : Text) → OptRow file (pip_row file name version)
unfolding pip_row
pip_row-IsRow file none version = no_row
pip_row-IsRow file (some name) version =
    OptRow-if file (is_empty name || is_empty version) none _ (λ e. no_row)
      (λ e. a_row (record {
        ecosystem = refl;
        source_file = refl;
        version = or_false_right (is_empty name) _ e;
      }))

requirement_line-IsRow : (file text : Text) → OptRow file (requirement_line file text)
unfolding requirement_line requirement
requirement_line-IsRow file text = search (OptRow-if, no_row, pip_row-IsRow)

cons_row-IsRow :
    (file : Text) (o : Option Dependency) (rows : List Dependency)
    → OptRow file o
    → All (IsRow (lit "pip") file) rows
    → All (IsRow (lit "pip") file) (cons_row o rows)
unfolding cons_row
cons_row-IsRow file none rows no_row k = k
cons_row-IsRow file (some d) rows (a_row h) k = (h, k)

requirement_lines-IsRow :
    (file : Text) (lines : List Text) → All (IsRow (lit "pip") file) (requirement_lines file lines)
unfolding requirement_lines
requirement_lines-IsRow file [] = tt
requirement_lines-IsRow file (line ∷ lines) =
    cons_row-IsRow file _ _ (requirement_line-IsRow file line) (requirement_lines-IsRow file lines)

-- Every row of requirements.txt is of the pip ecosystem, names its source and has a version.
pub parse_requirements_txt-IsRow :
    (file content : Text) → Yields (AllRows (lit "pip") file) (parse_requirements_txt file content)
unfolding parse_requirements_txt
parse_requirements_txt-IsRow file content =
    Yields-if (scan_lines max_token content).too_long _ _ (λ e. fails)
      (λ e. yields (requirement_lines-IsRow file (scan_lines max_token content).lines))
