-- ===== src/Scanner/Secrets.antt =====
-- `ParseTrufflehog` and `ParseGitleaks`.
pub mod Lines
use hen_kai_pan.Prelude.{
  ℕ, ◌*◌, Bool, true, false, List, [], ◌∷◌, ◌++◌, Option, none, some, if◌then◌else◌, map,
}
use hen_kai_pan.Prelude.Int.{ℤ}
use hen_kai_pan.Strings.{Text, lit, is_empty, scan_lines}
use hen_kai_pan.Tasks.World.{FindingRow, Parsed}
use hen_kai_pan.Scanner.Common.{Decoded, decoded, undecoded, no_row, parsed, normalize_finding_path}

-- `bufio.MaxScanTokenSize`, which a scanner without a buffer of its own has.
abbrev pub max_scan_token_size : ℕ
max_scan_token_size = 64 * 1024

-- The loop over the lines, with what `row` makes of each.
unfoldable pub decode_each :
    {A : Type 0} → (Text → Option A) → (A → FindingRow) → List Text → List FindingRow
decode_each decode row [] = []
decode_each decode row (line ∷ lines) =
    let rest = decode_each decode row lines in
    elim (decode line) [ none ↦ rest | some r ↦ row r ∷ rest ]

pub record ThogLine : Type 0 where
  pub file : Text
  pub line : ℤ
  pub commit : Text
  pub raw : Text
  pub detector_name : Text
  pub verified : Bool

-- `sha256` is `hex.EncodeToString` of `sha256.Sum256`.
pub secret_hash_of : (Text → Text) → Text → Text
secret_hash_of sha256 secret = if is_empty secret then [] else sha256 secret

module _ (sha256 : Text → Text) (marshal : ThogLine → Text) where
  unfoldable pub thog_row : ThogLine → FindingRow
  unfolding secret_hash_of normalize_finding_path
  thog_row r = record no_row {
    rule_id = r.detector_name;
    title = r.detector_name ++ lit " secret detected";
    description = lit "Verified: " ++ (if r.verified then lit "true" else lit "false");
    severity = if r.verified then lit "critical" else lit "high";
    file_path = normalize_finding_path r.file;
    line_start = r.line;
    raw = marshal r;
    secret_hash = secret_hash_of sha256 r.raw;
  }

  unfoldable pub parse_trufflehog : (Text → Option ThogLine) → Text → Parsed
  unfolding decode_each thog_row scan_lines
  parse_trufflehog decode output =
      parsed (decode_each decode thog_row (scan_lines max_scan_token_size output).lines)

pub record Leak : Type 0 where
  pub description : Text
  pub start_line : ℤ
  pub end_line : ℤ
  pub matched : Text
  pub file : Text
  pub rule_id : Text
  pub commit : Text

module _ (sha256 : Text → Text) (marshal : Leak → Text) where
  unfoldable pub leak_row : Leak → FindingRow
  unfolding secret_hash_of normalize_finding_path
  leak_row l = record no_row {
    rule_id = l.rule_id;
    title = l.description;
    severity = lit "high";
    file_path = normalize_finding_path l.file;
    line_start = l.start_line;
    line_end = l.end_line;
    raw = marshal l;
    secret_hash = secret_hash_of sha256 l.matched;
  }

  -- An output that is not decoded is no error.
  unfoldable pub parse_gitleaks : Decoded (List Leak) → Parsed
  unfolding leak_row
  parse_gitleaks (undecoded e) = parsed []
  parse_gitleaks (decoded leaks) = parsed (map leak_row leaks)
