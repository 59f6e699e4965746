-- ===== src/Tasks/Vulnerability.antt =====
-- internal/vulnerability/uid.go: the identity under which the findings of several scans are one
-- vulnerability. SHA-256 is a parameter.
use hen_kai_pan.Prelude.{
  true, [], ◌++◌, Option, none, some, ◌≡◌, arith, if◌then◌else◌, not, ◌&&◌, ◌||◌,
}
use hen_kai_pan.Strings.{
  Text, lit, text_eq, text_eq_iff, is_empty, trim_space, has_prefix, trim_prefix, contains,
  strip_prefix?,
}

strip_root : Text → Text → Text
strip_root prefix p = if has_prefix p prefix then lit "/" ++ trim_prefix p prefix else p

-- The last step: a path that is not rooted and names no scheme is rooted.
add_root : Text → Text
add_root p =
    if not (is_empty p) && not (has_prefix p (lit "/")) && not (contains p (lit "://"))
    then lit "/" ++ p
    else p

unfoldable pub normalize_path : Text → Text
unfolding strip_root add_root
normalize_path p =
    let stripped = trim_prefix (trim_space p) (lit "/tmp/aspm-scan-") in
    add_root (strip_root (lit "src/") (strip_root (lit "/src/") stripped))

unfoldable pub normalize_version : Text → Text
normalize_version v = trim_prefix (trim_space v) (lit "v")

-- `tag:a:b`
tagged : Text → Text → Text → Text
tagged tag a b = tag ++ a ++ lit ":" ++ b

-- The text that is hashed; `none` where the function returns "".
unfoldable pub uid_source : Text → Text → Text → Text → Text → Text → Option Text
unfolding tagged normalize_path
uid_source category rule_id pkg_name cve_id secret_hash file_path =
    let fp = normalize_path file_path in
    if text_eq category (lit "sca") || text_eq category (lit "containers")
    then (if not (is_empty rule_id)
        then some (lit "sca:" ++ rule_id)
        else if not (is_empty cve_id) && not (is_empty pkg_name)
        then some (tagged (lit "sca:") pkg_name cve_id)
        else none)
    else if text_eq category (lit "secrets")
    then (if not (is_empty secret_hash)
        then some (lit "secret:" ++ secret_hash)
        else if not (is_empty rule_id) && not (is_empty fp)
        then some (tagged (lit "secret:") rule_id fp)
        else none)
    else if text_eq category (lit "sast")
    then (if not (is_empty rule_id) && not (is_empty fp)
        then some (tagged (lit "sast:") rule_id fp)
        else if not (is_empty rule_id)
        then some (lit "sast:" ++ rule_id)
        else none)
    else if text_eq category (lit "iac")
    then (if not (is_empty rule_id) && not (is_empty fp)
        then some (tagged (lit "iac:") rule_id fp)
        else if not (is_empty rule_id)
        then some (lit "iac:" ++ rule_id)
        else none)
    else if text_eq category (lit "dast")
    then (if not (is_empty rule_id) then some (lit "dast:" ++ rule_id) else none)
    else none

digest : (Text → Text) → Option Text → Text
digest sha256_hex none = []
digest sha256_hex (some source) = sha256_hex source

unfoldable pub compute_vuln_uid :
    (Text → Text) → Text → Text → Text → Text → Text → Text → Text → Text
unfolding digest uid_source
compute_vuln_uid sha256_hex category rule_id pkg_name pkg_version cve_id secret_hash file_path =
    digest sha256_hex (uid_source category rule_id pkg_name cve_id secret_hash file_path)

-- `none` is the empty engine type.
unfoldable pub engine_type_from_category : Text → Option Text
engine_type_from_category cat =
    if text_eq cat (lit "sca")
    then some (lit "sca")
    else if text_eq cat (lit "sast")
    then some (lit "sast")
    else if text_eq cat (lit "secrets")
    then some (lit "secrets")
    else if text_eq cat (lit "iac")
    then some (lit "iac")
    else if text_eq cat (lit "containers")
    then some (lit "containers")
    else if text_eq cat (lit "dast")
    then some (lit "dast")
    else none

-- Where there is a text to hash into a uid, the category has an engine type, which is the category itself.
pub uid_source_engine :
    (category rule_id pkg_name cve_id secret_hash file_path source : Text)
    → uid_source category rule_id pkg_name cve_id secret_hash file_path ≡ some source
    → engine_type_from_category category ≡ some category
unfolding uid_source engine_type_from_category
uid_source_engine category rule_id pkg_name cve_id secret_hash file_path source h = ground (
  arith,
  text_eq_iff category (lit "sca"),
  text_eq_iff category (lit "sast"),
  text_eq_iff category (lit "secrets"),
  text_eq_iff category (lit "iac"),
  text_eq_iff category (lit "containers"),
  text_eq_iff category (lit "dast"),
)

add_root_lem :
    (p : Text)
    → (is_empty (add_root p)
        || has_prefix (add_root p) (lit "/")
        || contains (add_root p) (lit "://"))
      ≡ true
unfolding add_root has_prefix strip_prefix? is_empty
add_root_lem p = ground arith

-- A normalised path is empty, rooted or a URL.
normalize_path_rooted :
    (p : Text)
    → (is_empty (normalize_path p)
        || has_prefix (normalize_path p) (lit "/")
        || contains (normalize_path p) (lit "://"))
      ≡ true
unfolding normalize_path
normalize_path_rooted p = add_root_lem (
    strip_root (lit "src/")
      (strip_root (lit "/src/") (trim_prefix (trim_space p) (lit "/tmp/aspm-scan-"))))
