-- ===== src/Threats/Manifest/CargoLock.antt =====
-- Cargo.lock: `parseCargoLock` and `unquoteTOML`.
pub mod Rows
use hen_kai_pan.Prelude.{
  ℕ, ◌-◌, Bool, true, false, List, [], ◌∷◌, ◌++◌, ◌||◌, ◌&&◌, not, leb, length, take, drop,
  if◌then◌else◌, Option, none, some,
}
use hen_kai_pan.Strings.{
  Text, lit, text_eq, is_empty, trim_space, cut, has_prefix, has_suffix, scan_lines, Scanned,
}
use hen_kai_pan.Threats.Records.{Dependency}
use hen_kai_pan.Threats.Manifest.Result.{
  Result, ok, err, line_too_long, incomplete_package, bad_value, no_packages, ◌>>=◌, ◌>>◌,
  reject_if, max_token,
}

-- `value[1 : len(value)-1]`
inner : Text → Text
inner value = drop 1 (take (length value - 1) value)

quoted_by : Text → Text → Bool
quoted_by quote value = leb 2 (length value) && has_prefix value quote && has_suffix value quote

unfoldable pub unquote_toml : Text → Option Text
unfolding inner quoted_by
unquote_toml value =
    if quoted_by (lit "\"") value
    then some (inner value)
    else if quoted_by (lit "'") value
    then some (inner value)
    else none

pub record CargoLock : Type 0 where
  pub deps : List Dependency
  pub in_package : Bool
  pub name : Text
  pub version : Text

abbrev cargo_row : Text → Text → Text → Dependency
cargo_row source_file name version = record {
  ecosystem = lit "cargo";
  name = name;
  version = version;
  source_file = source_file;
}

-- `flush` inside a package.
flush_checked : Text → CargoLock → Result CargoLock
flush_checked source_file st =
    if is_empty st.name || is_empty st.version
    then err incomplete_package
    else ok (record st {
      deps = st.deps ++ cargo_row source_file st.name st.version ∷ [];
      name = [];
      version = [];
    })

flush : Text → CargoLock → Result CargoLock
unfolding flush_checked
flush source_file st = if not st.in_package then ok st else flush_checked source_file st

open_package : CargoLock → CargoLock
open_package st = record st { in_package = true; name = []; version = [] }

assign : Text → Option Text → CargoLock → Result CargoLock
assign key none st = err bad_value
assign key (some unquoted) st =
    if text_eq key (lit "name")
    then ok (record st { name = unquoted })
    else ok (record st { version = unquoted })

key_value : Text → CargoLock → Result CargoLock
key_value line st =
    let (raw_key, raw_value, found) = cut line (lit "=") in
    let key = trim_space raw_key in
    if not found
    then ok st
    else if not (text_eq key (lit "name")) && not (text_eq key (lit "version"))
    then ok st
    else assign key (unquote_toml (trim_space raw_value)) st

cargo_line : Text → CargoLock → Text → Result CargoLock
cargo_line source_file st text =
    let line = trim_space text in
    if is_empty line || has_prefix line (lit "#")
    then ok st
    else if text_eq line (lit "[[package]]")
    then (do flushed ← flush source_file st; ok (open_package flushed))
    else if not st.in_package
    then ok st
    else key_value line st

cargo_lines : Text → CargoLock → List Text → Result CargoLock
cargo_lines source_file st [] = ok st
cargo_lines source_file st (line ∷ lines) = do
  next ← cargo_line source_file st line
  cargo_lines source_file next lines

some_rows : List Dependency → Result (List Dependency)
some_rows [] = err no_packages
some_rows (d ∷ ds) = ok (d ∷ ds)

unfoldable pub cargo_finish : Text → Bool → CargoLock → Result (List Dependency)
unfolding flush some_rows
cargo_finish source_file too_long st = do
  reject_if too_long line_too_long
  flushed ← flush source_file st
  some_rows flushed.deps

abbrev cargo_start : CargoLock
cargo_start = record { deps = []; in_package = false; name = []; version = [] }

unfoldable pub parse_cargo_lock : Text → Text → Result (List Dependency)
unfolding cargo_lines cargo_line cargo_finish flush open_package key_value assign some_rows
    unquote_toml is_empty
parse_cargo_lock source_file content =
    let sc = scan_lines max_token content in
    do st ← cargo_lines source_file cargo_start sc.lines; cargo_finish source_file sc.too_long st
