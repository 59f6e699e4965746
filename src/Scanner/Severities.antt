-- ===== src/Scanner/Severities.antt =====
-- The severities that the parsers report.
use hen_kai_pan.Prelude.{
  Bool, true, false, List, [], ◌∷◌, Option, none, some, ◌≡◌, refl, arith, All, All-append, map,
  if◌then◌else◌, ◌||◌,
}
use hen_kai_pan.Strings.{Text, lit, text_eq, is_empty}
use hen_kai_pan.Maps.{Map, lookup}
use hen_kai_pan.Tasks.World.{FindingRow, Parsed}
use hen_kai_pan.Tasks.Severity.{is_valid_severity}
use hen_kai_pan.Scanner.Common.{
  Decoded, decoded, undecoded, Float, cvss_to_severity, severity_of_score, text_or, matches_cve,
}
use hen_kai_pan.Scanner.Grype.{GrypeMatch, normalize_grype, grype_row, parse_grype}
use hen_kai_pan.Scanner.Checkov.{
  CheckovCheck, normalize_checkov, checkov_row, checks_of, document_rows, parse_checkov,
}
use hen_kai_pan.Scanner.Sarif.{
  SarifResult, SarifRun, SarifLocation, RuleInfo, sarif_level, locate, code_row, base_row,
  base_severity, info_of, rule_map, sarif_row, sarif_results, sarif_runs, parse_sarif,
}

-- Of the five that are stored as they are.
abbrev pub IsRated : FindingRow → Type 0
IsRated row = is_valid_severity row.severity ≡ true

levels :
    (is_valid_severity (lit "critical") ≡ true)
    × (is_valid_severity (lit "high") ≡ true)
    × (is_valid_severity (lit "medium") ≡ true)
    × (is_valid_severity (lit "low") ≡ true)
    × (is_valid_severity (lit "info") ≡ true)
unfolding is_valid_severity text_eq
levels = (refl, refl, refl, refl, refl)

normalize_grype-valid : (s : Text) → is_valid_severity (normalize_grype s) ≡ true
unfolding normalize_grype
normalize_grype-valid s = ground (arith, levels)

normalize_checkov-valid : (s : Text) → is_valid_severity (normalize_checkov s) ≡ true
unfolding normalize_checkov
normalize_checkov-valid s = ground (arith, levels)

sarif_level-valid : (s : Text) → is_valid_severity (sarif_level s) ≡ true
unfolding sarif_level
sarif_level-valid s = ground (arith, levels)

grype-IsRated :
    (marshal : GrypeMatch → Text) (ms : List GrypeMatch) → All IsRated (map (grype_row marshal) ms)
unfolding grype_row
grype-IsRated marshal [] = tt
grype-IsRated marshal (m ∷ ms) = (normalize_grype-valid m.severity, grype-IsRated marshal ms)

-- Whatever Grype prints, each row has one of the five severities.
pub parse_grype-IsRated :
    (marshal : GrypeMatch → Text) (output : Decoded (List GrypeMatch))
    → All IsRated (parse_grype marshal output).rows
unfolding parse_grype
parse_grype-IsRated marshal (undecoded e) = tt
parse_grype-IsRated marshal (decoded ms) = grype-IsRated marshal ms

module _ (decode : Text → Decoded (List CheckovCheck))
    (decode_list : Text → Decoded (List (List CheckovCheck))) (marshal : CheckovCheck → Text) where
  checkov-IsRated :
      (cs : List CheckovCheck) → All IsRated (map (checkov_row decode decode_list marshal) cs)
  unfolding checkov_row
  checkov-IsRated [] = tt
  checkov-IsRated (c ∷ cs) = (normalize_checkov-valid c.severity, checkov-IsRated cs)

  document-IsRated :
      (d : Decoded (List CheckovCheck))
      → All IsRated (document_rows decode decode_list marshal d).rows
  unfolding document_rows
  document-IsRated (undecoded e) = tt
  document-IsRated (decoded cs) = checkov-IsRated cs

  IsRated-if :
      (b : Bool) (p q : Parsed)
      → All IsRated p.rows
      → All IsRated q.rows
      → All IsRated (if b then p else q).rows
  IsRated-if true p q h k = h
  IsRated-if false p q h k = k

  -- Whatever Checkov prints, one document or a list of them, each row has one of the five severities.
  pub parse_checkov-IsRated :
      (output : Text) → All IsRated (parse_checkov decode decode_list marshal output).rows
  unfolding parse_checkov
  parse_checkov-IsRated output =
      IsRated-if _ _ _ (checkov-IsRated (checks_of decode decode_list marshal (decode_list _)))
        (document-IsRated (decode _))

rated_or_empty :
    (o : Option Float)
    → (is_empty (severity_of_score o) || is_valid_severity (severity_of_score o)) ≡ true
unfolding severity_of_score is_empty
rated_or_empty none = refl
rated_or_empty (some v) = ground (arith, levels)

text_or-valid :
    (s other : Text)
    → (is_empty s || is_valid_severity s) ≡ true
    → is_valid_severity other ≡ true
    → is_valid_severity (text_or s other) ≡ true
unfolding text_or
text_or-valid s other h k = ground arith

module _ (parse_float : Text → Option Float) (marshal : SarifResult → Text) where
  score-valid :
      (s other : Text)
      → is_valid_severity other ≡ true
      → is_valid_severity (text_or (cvss_to_severity parse_float s) other) ≡ true
  unfolding cvss_to_severity
  score-valid s other h =
      text_or-valid (severity_of_score (parse_float s)) other (rated_or_empty (parse_float s)) h

  base-valid :
      (r : SarifResult) (info : RuleInfo)
      → is_valid_severity (base_row parse_float marshal r info).severity ≡ true
  unfolding base_row base_severity
  base-valid r info = score-valid info.cvss _ (sarif_level-valid r.level)

  locate_severity :
      (ls : List SarifLocation) (row : FindingRow) → (locate ls row).severity ≡ row.severity
  unfolding locate
  locate_severity [] row = refl
  locate_severity (l ∷ ls) row = refl

  sarif_row-IsRated :
      (rules : Map RuleInfo) (r : SarifResult)
      → matches_cve r.rule_id ≡ false
      → IsRated (sarif_row parse_float marshal rules r)
  unfolding sarif_row code_row
  sarif_row-IsRated rules r n =
      rw
        (
          n,
          locate_severity r.locations (
              code_row r (info_of (lookup r.rule_id rules))
                (base_row parse_float marshal r (info_of (lookup r.rule_id rules)))),
        )
        (base-valid r (info_of (lookup r.rule_id rules)))

  sarif_results-IsRated :
      (rules : Map RuleInfo) (rs : List SarifResult)
      → All (λ r. matches_cve r.rule_id ≡ false) rs
      → All IsRated (sarif_results parse_float marshal rules rs)
  unfolding sarif_results
  sarif_results-IsRated rules [] n = tt
  sarif_results-IsRated rules (r ∷ rs) (n, ns) =
      (sarif_row-IsRated rules r n, sarif_results-IsRated rules rs ns)

  sarif_runs-IsRated :
      (runs : List SarifRun)
      → All (λ run. All (λ r. matches_cve r.rule_id ≡ false) run.results) runs
      → All IsRated (sarif_runs parse_float marshal runs)
  unfolding sarif_runs
  sarif_runs-IsRated [] n = tt
  sarif_runs-IsRated (run ∷ runs) (n, ns) =
      All-append IsRated (sarif_results parse_float marshal (rule_map [] run.rules) run.results)
        (sarif_runs parse_float marshal runs)
        (sarif_results-IsRated (rule_map [] run.rules) run.results n) (sarif_runs-IsRated runs ns)

  -- Where no result is named after a CVE, each row of a SARIF report has one of the five severities,
  -- whatever its level and the CVSS score of its rule.
  pub parse_sarif-IsRated :
      (runs : List SarifRun)
      → All (λ run. All (λ r. matches_cve r.rule_id ≡ false) run.results) runs
      → All IsRated (parse_sarif parse_float marshal (decoded runs)).rows
  unfolding parse_sarif
  parse_sarif-IsRated runs n = sarif_runs-IsRated runs n
