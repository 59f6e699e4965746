-- ===== src/Scanner/Nuclei.antt =====
-- `ParseNuclei`.
use hen_kai_pan.Prelude.{List, [], ◌∷◌, Option}
use hen_kai_pan.Strings.{Text, to_lower, to_upper, scan_lines}
use hen_kai_pan.Tasks.World.{FindingRow, Parsed}
use hen_kai_pan.Scanner.Common.{no_row, parsed, first_cwe}
use hen_kai_pan.Scanner.Secrets.{decode_each, max_scan_token_size}

pub record NucleiLine : Type 0 where
  pub template_id : Text
  pub name : Text
  pub severity : Text
  pub description : Text
  pub cve_ids : List Text
  pub cwe_ids : List Text
  pub host : Text
  pub matched_at : Text

first_id : List Text → Text
unfolding to_upper
first_id [] = []
first_id (id ∷ ids) = to_upper id

module _ (marshal : NucleiLine → Text) where
  pub nuclei_row : NucleiLine → FindingRow
  unfolding first_id first_cwe to_lower
  nuclei_row r = record no_row {
    rule_id = r.template_id;
    title = r.name;
    description = r.description;
    severity = to_lower r.severity;
    file_path = r.matched_at;
    raw = marshal r;
    cve_id = first_id r.cve_ids;
    cwe_id = first_cwe r.cwe_ids;
  }

  unfoldable pub parse_nuclei : (Text → Option NucleiLine) → Text → Parsed
  unfolding nuclei_row scan_lines
  parse_nuclei decode output =
      parsed (decode_each decode nuclei_row (scan_lines max_scan_token_size output).lines)
