-- ===== src/Scanner/Kics.antt =====
-- `ParseKICS`.
use hen_kai_pan.Prelude.{List, [], ◌∷◌, ◌++◌, Option, map}
use hen_kai_pan.Prelude.Int.{ℤ}
use hen_kai_pan.Strings.{Text, lit, to_lower}
use hen_kai_pan.Tasks.World.{FindingRow, Parsed}
use hen_kai_pan.Scanner.Common.{
  Decoded, decoded, undecoded, no_row, parsed, unparsed, normalize_finding_path, read_file_content,
}

pub record KicsFile : Type 0 where
  pub file_name : Text
  pub line : ℤ
  pub issue_type : Text

pub record KicsQuery : Type 0 where
  pub query_id : Text
  pub query_name : Text
  pub severity : Text
  pub files : List KicsFile

module _ (read : Text → Option Text) (marshal : KicsQuery → Text) where
  unfoldable pub kics_row : KicsQuery → KicsFile → FindingRow
  unfolding normalize_finding_path read_file_content to_lower
  kics_row q f =
      let path = normalize_finding_path f.file_name in
      record no_row {
        rule_id = q.query_id;
        title = q.query_name;
        severity = to_lower q.severity;
        file_path = path;
        line_start = f.line;
        code_snippet = read_file_content read path;
        raw = marshal q;
      }

  pub query_rows : List KicsQuery → List FindingRow
  unfolding kics_row
  query_rows [] = []
  query_rows (q ∷ qs) = map (kics_row q) q.files ++ query_rows qs

  unfoldable pub parse_kics : Decoded (List KicsQuery) → Parsed
  unfolding query_rows
  parse_kics (undecoded e) = unparsed (lit "kics parse") e
  parse_kics (decoded queries) = parsed (query_rows queries)
