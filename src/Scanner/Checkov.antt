-- ===== src/Scanner/Checkov.antt =====
-- `ParseCheckov`.
use hen_kai_pan.Prelude.{List, [], if◌then◌else◌, map, concat}
use hen_kai_pan.Prelude.Int.{ℤ}
use hen_kai_pan.Strings.{Text, lit, text_eq, to_upper, trim_space, has_prefix}
use hen_kai_pan.Tasks.World.{FindingRow, Parsed}
use hen_kai_pan.Scanner.Common.{
  Decoded, decoded, undecoded, no_row, parsed, unparsed, normalize_finding_path, text_or,
}

pub record CheckovCheck : Type 0 where
  pub check_id : Text
  pub file_path : Text
  pub range_start : ℤ
  pub range_end : ℤ
  pub resource : Text
  pub severity : Text
  pub name : Text

unfoldable pub normalize_checkov : Text → Text
normalize_checkov s =
    let level = to_upper s in
    if text_eq level (lit "CRITICAL")
    then lit "critical"
    else if text_eq level (lit "HIGH")
    then lit "high"
    else if text_eq level (lit "MEDIUM")
    then lit "medium"
    else if text_eq level (lit "LOW")
    then lit "low"
    else lit "medium"

-- A document is its failed checks; the decoders are `json.Unmarshal` into one document and into a list.
module _ (decode : Text → Decoded (List CheckovCheck))
    (decode_list : Text → Decoded (List (List CheckovCheck))) (marshal : CheckovCheck → Text) where
  unfoldable pub checkov_row : CheckovCheck → FindingRow
  unfolding normalize_checkov normalize_finding_path text_or
  checkov_row c = record no_row {
    rule_id = c.check_id;
    title = text_or c.name c.check_id;
    severity = normalize_checkov c.severity;
    file_path = normalize_finding_path c.file_path;
    line_start = c.range_start;
    line_end = c.range_end;
    raw = marshal c;
  }

  -- A list that is not decoded leaves no checks, and is no error.
  unfoldable pub checks_of : Decoded (List (List CheckovCheck)) → List CheckovCheck
  checks_of (undecoded e) = []
  checks_of (decoded docs) = concat docs

  unfoldable pub document_rows : Decoded (List CheckovCheck) → Parsed
  unfolding checkov_row
  document_rows (undecoded e) = unparsed (lit "checkov parse") e
  document_rows (decoded checks) = parsed (map checkov_row checks)

  unfoldable pub parse_checkov : Text → Parsed
  unfolding checks_of document_rows trim_space
  parse_checkov output =
      let trimmed = trim_space output in
      if has_prefix trimmed (lit "[")
      then parsed (map checkov_row (checks_of (decode_list trimmed)))
      else document_rows (decode trimmed)
