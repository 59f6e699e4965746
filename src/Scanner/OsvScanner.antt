-- ===== src/Scanner/OsvScanner.antt =====
-- `ParseOSV`, for OSV-Scanner.
use hen_kai_pan.Prelude.{List, [], ◌∷◌, ◌++◌, map}
use hen_kai_pan.Strings.{Text, lit, to_lower}
use hen_kai_pan.Tasks.World.{FindingRow, Parsed}
use hen_kai_pan.Scanner.Common.{
  Decoded, decoded, undecoded, no_row, parsed, unparsed, first_cve, first_cwe,
  normalize_finding_path, text_or,
}
use hen_kai_pan.Scanner.Grype.{first_related}

pub record OsvVulnerability : Type 0 where
  pub id : Text
  pub aliases : List Text
  pub summary : Text
  pub details : Text
  pub severity : Text
  pub cwe_ids : List Text

pub record OsvPackage : Type 0 where
  pub name : Text
  pub version : Text
  pub ecosystem : Text
  pub vulnerabilities : List OsvVulnerability

pub record OsvResult : Type 0 where
  pub path : Text
  pub packages : List OsvPackage

module _ (marshal : OsvVulnerability → Text) where
  unfoldable pub osv_row : Text → OsvPackage → OsvVulnerability → FindingRow
  unfolding first_related first_cve first_cwe normalize_finding_path text_or to_lower
  osv_row path pkg v = record no_row {
    rule_id = v.id;
    title = v.id ++ lit " in " ++ pkg.name ++ lit "@" ++ pkg.version;
    description = text_or v.summary v.id;
    severity = text_or (to_lower v.severity) (lit "medium");
    file_path = normalize_finding_path path;
    raw = marshal v;
    cve_id = text_or (first_cve (v.id ∷ [])) (first_related v.aliases);
    cwe_id = first_cwe v.cwe_ids;
    pkg_name = pkg.name;
    pkg_version = pkg.version;
  }

  pub package_rows : Text → List OsvPackage → List FindingRow
  unfolding osv_row
  package_rows path [] = []
  package_rows path (pkg ∷ pkgs) =
      map (osv_row path pkg) pkg.vulnerabilities ++ package_rows path pkgs

  pub result_rows : List OsvResult → List FindingRow
  unfolding package_rows
  result_rows [] = []
  result_rows (res ∷ results) = package_rows res.path res.packages ++ result_rows results

  unfoldable pub parse_osv : Decoded (List OsvResult) → Parsed
  unfolding result_rows
  parse_osv (undecoded e) = unparsed (lit "osv parse") e
  parse_osv (decoded results) = parsed (result_rows results)
