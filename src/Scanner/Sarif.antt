-- ===== src/Scanner/Sarif.antt =====
-- `ParseSARIF`, for the scanners that write SARIF.
use hen_kai_pan.Prelude.{List, [], ◌∷◌, ◌++◌, Option, none, some, if◌then◌else◌, ◌&&◌, ◌||◌, not}
use hen_kai_pan.Prelude.Int.{ℤ}
use hen_kai_pan.Strings.{
  Text, lit, text_eq, is_empty, trim_space, has_prefix, trim_prefix, to_lower, to_upper, split,
}
use hen_kai_pan.Maps.{Map, insert, lookup}
use hen_kai_pan.Tasks.World.{FindingRow, Parsed}
use hen_kai_pan.Scanner.Common.{
  Decoded, decoded, undecoded, no_row, parsed, unparsed, first_cwe, matches_cve,
  normalize_finding_path, Float, cvss_to_severity, text_or,
}

pub record SarifRule : Type 0 where
  pub id : Text
  pub short_description : Text
  pub full_description : Text
  pub tags : List Text
  pub cwe : List Text
  pub security_severity : Text

pub record SarifLocation : Type 0 where
  pub uri : Text
  pub start_line : ℤ
  pub end_line : ℤ
  pub snippet : Text

pub record SarifResult : Type 0 where
  pub rule_id : Text
  pub message : Text
  pub level : Text
  pub locations : List SarifLocation

pub record SarifRun : Type 0 where
  pub rules : List SarifRule
  pub results : List SarifResult

unfoldable pub sarif_level : Text → Text
sarif_level l =
    let level = to_lower l in
    if text_eq level (lit "error")
    then lit "high"
    else if text_eq level (lit "warning")
    then lit "medium"
    else if text_eq level (lit "note") || text_eq level (lit "info")
    then lit "low"
    else lit "info"

pub record TrivyMessage : Type 0 where
  pub pkg : Text
  pub installed_ver : Text
  pub fixed_ver : Text
  pub severity : Text

-- One line of the message; a later line wins.
read_line : TrivyMessage → Text → TrivyMessage
read_line m line =
    if has_prefix line (lit "Package: ")
    then record m { pkg = trim_prefix line (lit "Package: ") }
    else if has_prefix line (lit "Installed Version: ")
    then record m { installed_ver = trim_prefix line (lit "Installed Version: ") }
    else if has_prefix line (lit "Fixed Version: ")
    then record m { fixed_ver = trim_prefix line (lit "Fixed Version: ") }
    else if has_prefix line (lit "Severity: ")
    then record m { severity = to_lower (trim_prefix line (lit "Severity: ")) }
    else m

read_trivy_lines : TrivyMessage → List Text → TrivyMessage
unfolding read_line trim_space
read_trivy_lines m [] = m
read_trivy_lines m (line ∷ lines) = read_trivy_lines (read_line m (trim_space line)) lines

unfoldable pub parse_trivy_message : Text → TrivyMessage
unfolding read_trivy_lines split
parse_trivy_message msg =
    read_trivy_lines (record { pkg = []; installed_ver = []; fixed_ver = []; severity = [] })
      (split msg b'\n')

-- `ruleInfo`
pub record RuleInfo : Type 0 where
  pub short_desc : Text
  pub full_desc : Text
  pub cwe : Text
  pub cvss : Text

-- `ruleInfo{}`
abbrev no_info : RuleInfo
no_info = record { short_desc = []; full_desc = []; cwe = []; cvss = [] }

rule_info : SarifRule → RuleInfo
unfolding first_cwe
rule_info r = record {
  short_desc = r.short_description;
  full_desc = r.full_description;
  cwe = first_cwe (r.tags ++ r.cwe);
  cvss = r.security_severity;
}

pub rule_map : Map RuleInfo → List SarifRule → Map RuleInfo
unfolding rule_info insert
rule_map m [] = m
rule_map m (r ∷ rs) = rule_map (insert r.id (rule_info r) m) rs

pub info_of : Option RuleInfo → RuleInfo
info_of none = no_info
info_of (some info) = info

cve_title : Text → TrivyMessage → Text
cve_title rule_id m =
    if is_empty m.pkg
    then rule_id
    else if is_empty m.installed_ver
    then rule_id ++ lit " in " ++ m.pkg
    else rule_id ++ lit " in " ++ m.pkg ++ lit "@" ++ m.installed_ver

cve_description : Text → TrivyMessage → Text
cve_description text m =
    if not (is_empty m.fixed_ver) && not (text_eq m.fixed_ver (lit "N/A"))
    then lit "Fixed in: " ++ m.fixed_ver ++ lit "\n" ++ text
    else text

-- A result that names a CVE: its message is structured text.
unfoldable pub cve_row : SarifResult → TrivyMessage → FindingRow → FindingRow
unfolding cve_title cve_description to_upper text_or
cve_row r m row = record row {
  severity = text_or m.severity row.severity;
  cve_id = to_upper r.rule_id;
  pkg_name = m.pkg;
  pkg_version = m.installed_ver;
  title = cve_title r.rule_id m;
  description = cve_description r.message m;
}

-- The message, or the rule's description where it says no more than the title.
described : RuleInfo → Text → Text → Text
described info title msg =
    let full = trim_space info.full_desc in
    let msg' = text_or msg full in if is_empty msg' || text_eq msg' title then full else msg'

unfoldable pub code_row : SarifResult → RuleInfo → FindingRow → FindingRow
unfolding described text_or trim_space
code_row r info row =
    let title = text_or (trim_space info.short_desc) r.rule_id in
    record row { title = title; description = described info title (trim_space r.message) }

unfoldable pub locate : List SarifLocation → FindingRow → FindingRow
unfolding normalize_finding_path
locate [] row = row
locate (loc ∷ locs) row = record row {
  file_path = normalize_finding_path loc.uri;
  line_start = loc.start_line;
  line_end = loc.end_line;
  code_snippet = loc.snippet;
}

module _ (parse_float : Text → Option Float) (marshal : SarifResult → Text) where
  -- The level, overridden by a CVSS score.
  unfoldable pub base_severity : SarifResult → RuleInfo → Text
  unfolding cvss_to_severity sarif_level text_or
  base_severity r info = text_or (cvss_to_severity parse_float info.cvss) (sarif_level r.level)

  unfoldable pub base_row : SarifResult → RuleInfo → FindingRow
  unfolding base_severity
  base_row r info = record no_row {
    rule_id = r.rule_id;
    severity = base_severity r info;
    cwe_id = info.cwe;
  }

  unfoldable pub sarif_row : Map RuleInfo → SarifResult → FindingRow
  unfolding info_of base_row cve_row code_row locate matches_cve parse_trivy_message lookup
  sarif_row rules r =
      let info = info_of (lookup r.rule_id rules) in
      let row = base_row r info in
      let named =
        if matches_cve r.rule_id
        then cve_row r (parse_trivy_message r.message) row
        else code_row r info row in
      record (locate r.locations named) { raw = marshal r }

  unfoldable pub sarif_results : Map RuleInfo → List SarifResult → List FindingRow
  unfolding sarif_row
  sarif_results rules [] = []
  sarif_results rules (r ∷ rs) = sarif_row rules r ∷ sarif_results rules rs

  unfoldable pub sarif_runs : List SarifRun → List FindingRow
  unfolding sarif_results rule_map
  sarif_runs [] = []
  sarif_runs (run ∷ runs) = sarif_results (rule_map [] run.rules) run.results ++ sarif_runs runs

  unfoldable pub parse_sarif : Decoded (List SarifRun) → Parsed
  unfolding sarif_runs
  parse_sarif (undecoded e) = unparsed (lit "sarif parse") e
  parse_sarif (decoded runs) = parsed (sarif_runs runs)
