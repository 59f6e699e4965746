-- ===== src/Scanner/Grype.antt =====
-- `ParseGrype`.
use hen_kai_pan.Prelude.{List, [], ◌∷◌, ◌++◌, if◌then◌else◌, map}
use hen_kai_pan.Strings.{Text, lit, text_eq, is_empty, to_upper}
use hen_kai_pan.Tasks.World.{FindingRow, Parsed}
use hen_kai_pan.Scanner.Common.{
  Decoded, decoded, undecoded, no_row, parsed, unparsed, first_cve, normalize_finding_path, text_or,
}

pub record GrypeMatch : Type 0 where
  pub id : Text
  pub severity : Text
  pub description : Text
  pub related : List Text
  pub name : Text
  pub version : Text
  -- `realPath` of each location.
  pub locations : List Text

unfoldable pub normalize_grype : Text → Text
normalize_grype s =
    let level = to_upper s in
    if text_eq level (lit "CRITICAL")
    then lit "critical"
    else if text_eq level (lit "HIGH")
    then lit "high"
    else if text_eq level (lit "MEDIUM")
    then lit "medium"
    else if text_eq level (lit "LOW")
    then lit "low"
    else lit "info"

first_path : List Text → Text
unfolding normalize_finding_path
first_path [] = []
first_path (p ∷ ps) = normalize_finding_path p

-- The loop over the ids that stops at the first CVE.
unfoldable pub first_related : List Text → Text
unfolding first_cve text_or
first_related [] = []
first_related (id ∷ ids) = text_or (first_cve (id ∷ [])) (first_related ids)

module _ (marshal : GrypeMatch → Text) where
  unfoldable pub grype_row : GrypeMatch → FindingRow
  unfolding first_path first_related first_cve normalize_grype text_or is_empty
  grype_row m = record no_row {
    rule_id = m.id;
    title = if is_empty m.name then m.id else m.id ++ lit " in " ++ m.name ++ lit "@" ++ m.version;
    description = m.description;
    severity = normalize_grype m.severity;
    file_path = first_path m.locations;
    raw = marshal m;
    cve_id = text_or (first_cve (m.id ∷ [])) (first_related m.related);
    pkg_name = m.name;
    pkg_version = m.version;
  }

  unfoldable pub parse_grype : Decoded (List GrypeMatch) → Parsed
  unfolding grype_row
  parse_grype (undecoded e) = unparsed (lit "grype parse") e
  parse_grype (decoded matches) = parsed (map grype_row matches)
