-- ===== src/Tests/Outputs.antt =====
-- Outputs of scanners, and the files that they name.
use hen_kai_pan.Prelude.{
  ℕ, zero, suc, ◌+◌, ◌<◌, true, false, List, [], ◌∷◌, ◌++◌, Option, none, some, ◌≡◌, refl, ap,
  if◌then◌else◌, arith, All, ◌⊎◌, inl, inr, ◌||◌, ◌↔◌, length, replicate, any, leb, ◌==◌,
}
use hen_kai_pan.Prelude.Int.{pos}
use hen_kai_pan.Strings.{Text, lit, text_eq, has_prefix, strip_prefix?}
use hen_kai_pan.Scanner.Common.{decoded, first_cve, matches_cve, Float, parsed}
use hen_kai_pan.Scanner.Common.Ids.{IsCve, first_cve-IsCve}
use hen_kai_pan.Scanner.Severities.{IsRated, parse_sarif-IsRated}
use hen_kai_pan.Scanner.Sarif.{SarifResult, SarifRun, parse_sarif}
use hen_kai_pan.Scanner.Secrets.{ThogLine, parse_trufflehog, max_scan_token_size}
use hen_kai_pan.Scanner.Secrets.Lines.{parse_trufflehog_long}
use hen_kai_pan.Scanner.Snippet.{slice_panic, preview, max_preview_lines, Files, extract_snippet}
use hen_kai_pan.Scanner.Snippet.Bounds.{preview_panics_iff, extract_snippet_inside, IsUnder}

abbrev named : List Text
named = lit "GHSA-x" ∷ lit "see cve-2021-44228." ∷ []

first_cve-IsCve_example : (first_cve named ≡ []) ⊎ IsCve (first_cve named)
first_cve-IsCve_example = first_cve-IsCve named

abbrev result : SarifResult
result = record { rule_id = lit "sqli"; message = lit "m"; level = lit "error"; locations = [] }

abbrev run : SarifRun
run = record { rules = []; results = result ∷ [] }

abbrev no_float : Text → Option Float
no_float s = none

abbrev no_bytes : SarifResult → Text
no_bytes r = []

unnamed : matches_cve result.rule_id ≡ false
unfolding matches_cve
unnamed = refl

parse_sarif-IsRated_example : All IsRated (parse_sarif no_float no_bytes (decoded (run ∷ []))).rows
parse_sarif-IsRated_example = parse_sarif-IsRated no_float no_bytes (run ∷ []) ((unnamed, tt), tt)

replicate-unbroken : (n : ℕ) → any (λ c. c == 10) (replicate n b'a') ≡ false
replicate-unbroken zero = refl
replicate-unbroken (suc n) = replicate-unbroken n

length-replicate : (n : ℕ) → length (replicate {A = ℕ} n b'a') ≡ n
length-replicate zero = refl
length-replicate (suc n) = ap suc (length-replicate n)

long_enough : (n : ℕ) → leb n (length (replicate {A = ℕ} n b'a')) ≡ true
long_enough n = rw (length-replicate n) (ground arith)

abbrev same : Text → Text
same s = s

abbrev thog_bytes : ThogLine → Text
thog_bytes l = []

abbrev leaked : ThogLine
leaked = record {
  file = lit "a.env";
  line = pos 1;
  commit = [];
  raw = lit "k";
  detector_name = lit "AWS";
  verified = true;
}

-- A line that starts with a brace reports a secret.
abbrev read_leak : Text → Option ThogLine
read_leak [] = none
read_leak (c ∷ s) = if c == b'{' then some leaked else none

abbrev long_line : Text
long_line = replicate max_scan_token_size b'a'

parse_trufflehog_long_example :
    (parse_trufflehog same thog_bytes read_leak (lit "{}" ++ 10 ∷ (long_line ++ 10 ∷ lit "{}"))
      ≡ parse_trufflehog same thog_bytes read_leak (lit "{}" ++ 10 ∷ []))
    × (parse_trufflehog same thog_bytes read_leak (long_line ++ 10 ∷ lit "{}") ≡ parsed [])
    × ((parse_trufflehog same thog_bytes read_leak
          (lit "{}" ++ 10 ∷ (long_line ++ 10 ∷ lit "{}"))).parse_err
        ≡ none)
parse_trufflehog_long_example =
    parse_trufflehog_long same thog_bytes read_leak (lit "{}") long_line (lit "{}")
      (replicate-unbroken max_scan_token_size) (long_enough max_scan_token_size)

abbrev many_lines : List Text
many_lines = replicate 450 (lit "x")

preview_panics_iff_example :
    (preview (lit "x") many_lines 600 601 ≡ slice_panic)
    ↔ ((max_preview_lines < length many_lines) × (length many_lines + 9 < 600))
preview_panics_iff_example =
    preview_panics_iff (lit "x") many_lines 600 601 (ground arith) (ground arith)

abbrev files : Files
files = record { join_path = λ a b. a ++ lit "/" ++ b; clean = λ p. p; read = λ p. some (lit "x") }

abbrev only_repo : Text → Option Text
only_repo p =
    if text_eq p (lit "/repo") || has_prefix p (lit "/repo/") then some (lit "x") else none

under_repo : (p : Text) → IsUnder (lit "/repo") p → some (lit "x") ≡ only_repo p
unfolding text_eq has_prefix strip_prefix?
under_repo p (inl e) = rw e refl
under_repo p (inr (rest, e)) = rw e refl

extract_snippet_inside_example :
    extract_snippet files (lit "/repo") (lit "a.go") (pos 1) (pos 1)
    ≡ extract_snippet (record files { read = only_repo }) (lit "/repo") (lit "a.go") (pos 1) (pos 1)
extract_snippet_inside_example =
    extract_snippet_inside files only_repo (lit "/repo") (lit "a.go") (pos 1) (pos 1) under_repo
