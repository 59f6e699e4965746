-- ===== src/Scanner/Common.antt =====
-- What the parsers of internal/scanner/parsers.go share.
pub mod Paths
pub mod Ids
use hen_kai_pan.Prelude.{
  ℕ, suc, ◌*◌, Bool, true, false, List, [], ◌∷◌, ◌++◌, Option, none, some, if◌then◌else◌, ◌&&◌,
  ◌||◌, not, leb, ltb, ◌==◌, take, length,
}
use hen_kai_pan.Prelude.Int.{ℤ, pos}
use hen_kai_pan.Strings.{
  Text, lit, text_eq, is_empty, trim_space, contains, has_prefix, trim_prefix, to_upper, to_lower,
  is_digit,
}
use hen_kai_pan.Tasks.World.{FindingRow, Parsed}

-- What `json.Unmarshal` answers: a document, or the text of an error.
pub data Decoded (A : Type 0) : Type 0 where
  decoded : A → Decoded A
  undecoded : Text → Decoded A

-- `FindingRow{}`
abbrev pub no_row : FindingRow
no_row = record {
  rule_id = [];
  title = [];
  description = [];
  severity = [];
  file_path = [];
  line_start = pos 0;
  line_end = pos 0;
  code_snippet = [];
  raw = [];
  cve_id = [];
  cwe_id = [];
  secret_hash = [];
  pkg_name = [];
  pkg_version = [];
}

abbrev pub parsed : List FindingRow → Parsed
parsed rows = record { rows = rows; parse_err = none }

-- `fmt.Errorf("...: %w", err)`
abbrev pub unparsed : Text → Text → Parsed
unparsed prefix e = record { rows = []; parse_err = some (prefix ++ lit ": " ++ e) }

-- The longest run of digits.
pub span_digits : Text → Text × Text
unfolding is_digit
span_digits [] = ([], [])
span_digits (c ∷ s) =
    let (ds, rest) = span_digits s in if is_digit c then (c ∷ ds, rest) else ([], c ∷ s)

pub some_if : Bool → Text → Option Text
some_if true s = some s
some_if false s = none

-- `(?i)CWE-(\d+)` at the start of a text.
pub match_cwe : Text → Option Text
unfolding to_upper text_eq span_digits some_if
match_cwe (a ∷ b ∷ c ∷ d ∷ s) =
    let (ds, rest) = span_digits s in
    some_if (text_eq (to_upper (a ∷ b ∷ c ∷ d ∷ [])) (lit "CWE-") && not (is_empty ds))
      (a ∷ b ∷ c ∷ d ∷ ds)
match_cwe s = none

pub match_number : Text → Text → Option Text
unfolding span_digits some_if
match_number before [] = none
match_number before (c ∷ s) =
    let (ds, rest) = span_digits s in some_if (c == b'-' && not (is_empty ds)) (before ++ c ∷ ds)

-- `\d{4}-\d+` after `before`.
pub match_year : Text → Text → Option Text
unfolding match_number is_digit
match_year before (a ∷ b ∷ c ∷ d ∷ s) =
    if is_digit a && is_digit b && is_digit c && is_digit d
    then match_number (before ++ a ∷ b ∷ c ∷ d ∷ []) s
    else none
match_year before s = none

-- `(?i)CVE-\d{4}-\d+` at the start of a text.
pub match_cve : Text → Option Text
unfolding match_year to_upper text_eq
match_cve (a ∷ b ∷ c ∷ d ∷ s) =
    if text_eq (to_upper (a ∷ b ∷ c ∷ d ∷ [])) (lit "CVE-")
    then match_year (a ∷ b ∷ c ∷ d ∷ []) s
    else none
match_cve s = none

pub or_else : Option Text → Option Text → Option Text
or_else (some m) other = some m
or_else none other = other

-- `FindString`, for a pattern that matches no empty text: the leftmost match.
pub find_string : (Text → Option Text) → Text → Option Text
unfolding or_else
find_string matches [] = none
find_string matches (c ∷ s) = or_else (matches (c ∷ s)) (find_string matches s)

pub upper_of : Option Text → Text → Text
unfolding to_upper
upper_of (some m) later = to_upper m
upper_of none later = later

-- The loop of `firstCWE` and `firstCVE`.
pub first_match : (Text → Option Text) → List Text → Text
unfolding find_string upper_of
first_match matches [] = []
first_match matches (t ∷ ts) = upper_of (find_string matches t) (first_match matches ts)

unfoldable pub first_cwe : List Text → Text
unfolding first_match match_cwe
first_cwe tags = first_match match_cwe tags

unfoldable pub first_cve : List Text → Text
unfolding first_match match_cve
first_cve candidates = first_match match_cve candidates

-- `cveRe.MatchString`
unfoldable pub matches_cve : Text → Bool
unfolding find_string match_cve
matches_cve s = elim (find_string match_cve s) [ none ↦ false | some m ↦ true ]

-- `if strings.HasPrefix(path, "/src/") { ... }`
drop_mount : Text → Text
drop_mount path = if has_prefix path (lit "/src/") then trim_prefix path (lit "/src") else path

drop_relative : Text → Text
drop_relative path =
    if has_prefix path (lit "src/") then lit "/" ++ trim_prefix path (lit "src/") else path

pub rooted : Text → Text
rooted path =
    if not (is_empty path) && not (has_prefix path (lit "/")) then lit "/" ++ path else path

pub normalize_trimmed : Text → Text
unfolding drop_mount drop_relative rooted
normalize_trimmed path =
    if is_empty path
    then []
    else if contains path (lit "://") && not (has_prefix path (lit "file://"))
    then path
    else rooted (drop_relative (drop_mount (trim_prefix path (lit "file://"))))

unfoldable pub normalize_finding_path : Text → Text
unfolding normalize_trimmed trim_space
normalize_finding_path path = normalize_trimmed (trim_space path)

-- `maxFileContentSize`
abbrev pub max_file_content_size : ℕ
max_file_content_size = 10 * 1024

truncated : Option Text → Text
truncated none = []
truncated (some content) =
    if ltb max_file_content_size (length content)
    then take max_file_content_size content ++ lit "\n... [truncated]"
    else content

-- `read` is `os.ReadFile`.
unfoldable pub read_file_content : (Text → Option Text) → Text → Text
unfolding truncated is_empty
read_file_content read path = if is_empty path then [] else truncated (read path)

-- A float64, by the comparisons that the code makes of it.
pub record Float : Type 0 where
  pub at_least : ℕ → Bool
  pub positive : Bool

unfoldable pub severity_of_score : Option Float → Text
severity_of_score none = []
severity_of_score (some v) =
    if v.at_least 9
    then lit "critical"
    else if v.at_least 7
    then lit "high"
    else if v.at_least 4
    then lit "medium"
    else if v.positive
    then lit "low"
    else lit "info"

-- `parse` is `strconv.ParseFloat`.
unfoldable pub cvss_to_severity : (Text → Option Float) → Text → Text
unfolding severity_of_score
cvss_to_severity parse score = severity_of_score (parse score)

-- The first text, or the second where it is empty.
unfoldable pub text_or : Text → Text → Text
unfolding is_empty
text_or s other = if is_empty s then other else s
