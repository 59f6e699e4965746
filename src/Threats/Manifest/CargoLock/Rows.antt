-- ===== src/Threats/Manifest/CargoLock/Rows.antt =====
-- The rows of Cargo.lock.
use hen_kai_pan.Prelude.{List, [], ◌∷◌, ◌||◌, All, All-append, refl, Option, none, some}
use hen_kai_pan.Strings.{Text, lit, is_empty, scan_lines}
use hen_kai_pan.Threats.Records.{Dependency}
use hen_kai_pan.Threats.Manifest.Result.{err, max_token, incomplete_package}
use hen_kai_pan.Threats.Manifest.Row.{
  IsRow, Yields, yields, fails, Yields-bind, Yields-if, Yields-reject, AllRows, or_false_right,
}
use hen_kai_pan.Threats.Manifest.CargoLock.{
  CargoLock, parse_cargo_lock, cargo_start, cargo_line, cargo_lines, flush, flush_checked,
  some_rows, key_value, assign, open_package,
}

module _ (file : Text) where
  abbrev CargoRows : CargoLock → Type 0
  CargoRows st = All (IsRow (lit "cargo") file) st.deps

  flush_checked-IsRow : (st : CargoLock) → CargoRows st → Yields CargoRows (flush_checked file st)
  unfolding flush_checked
  flush_checked-IsRow st h =
      Yields-if (is_empty st.name || is_empty st.version) (err incomplete_package) _ (λ e. fails)
        (λ e. yields (
          All-append (IsRow (lit "cargo") file) st.deps _ h (
            record {
              ecosystem = refl;
              source_file = refl;
              version = or_false_right (is_empty st.name) _ e;
            },
            tt,
          )))

  flush-IsRow : (st : CargoLock) → CargoRows st → Yields CargoRows (flush file st)
  unfolding flush
  flush-IsRow st h = search (Yields-if, yields, flush_checked-IsRow st h)

  assign-IsRow :
      (key : Text) (o : Option Text) (st : CargoLock)
      → CargoRows st
      → Yields CargoRows (assign key o st)
  unfolding assign
  assign-IsRow key none st h = fails
  assign-IsRow key (some v) st h = search (Yields-if, yields)

  key_value-IsRow :
      (line : Text) (st : CargoLock) → CargoRows st → Yields CargoRows (key_value line st)
  unfolding key_value
  key_value-IsRow line st h = search (Yields-if, yields, assign-IsRow)

  cargo_line-IsRow :
      (st : CargoLock) (text : Text) → CargoRows st → Yields CargoRows (cargo_line file st text)
  unfolding cargo_line open_package
  cargo_line-IsRow st text h =
      search (Yields-if, Yields-bind, yields, flush-IsRow, key_value-IsRow) depth 8

  cargo_lines-IsRow :
      (st : CargoLock) (lines : List Text)
      → CargoRows st
      → Yields CargoRows (cargo_lines file st lines)
  unfolding cargo_lines
  cargo_lines-IsRow st [] h = yields h
  cargo_lines-IsRow st (line ∷ lines) h =
      Yields-bind (cargo_line file st line) _ (cargo_line-IsRow st line h)
        (λ next k. cargo_lines-IsRow next lines k)

  some_rows-IsRow :
      (ds : List Dependency)
      → All (IsRow (lit "cargo") file) ds
      → Yields (AllRows (lit "cargo") file) (some_rows ds)
  unfolding some_rows
  some_rows-IsRow [] h = fails
  some_rows-IsRow (d ∷ ds) h = yields h

-- Every row of Cargo.lock is of the cargo ecosystem, names its source and has a version.
pub parse_cargo_lock-IsRow :
    (file content : Text) → Yields (AllRows (lit "cargo") file) (parse_cargo_lock file content)
unfolding parse_cargo_lock
parse_cargo_lock-IsRow file content =
    let sc = scan_lines max_token content in
    Yields-bind (cargo_lines file cargo_start sc.lines) _
      (cargo_lines-IsRow file cargo_start sc.lines tt)
      (λ st h. Yields-reject _ _ (
        Yields-bind (flush file st) _ (flush-IsRow file st h)
          (λ st' k. some_rows-IsRow file st'.deps k)))
