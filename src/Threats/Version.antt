-- ===== src/Threats/Version.antt =====
-- Version comparison and OSV ranges: `compareVersions`, `splitVersion` and `versionInEvents` of
-- internal/threats/matcher.go.
pub mod Order
pub mod Intervals
use hen_kai_pan.Prelude.{
  ℕ, Bool, true, false, List, [], ◌∷◌, ◌&&◌, ◌||◌, not, ◌==◌, if◌then◌else◌, Option, none, some,
}
use hen_kai_pan.Prelude.Int.{ℤ, pos, negsuc, lt_int, eq_int, is_nonneg}
use hen_kai_pan.Strings.{
  Text, lit, text_eq, text_lt, is_empty, trim_space, trim_prefix, cut, fields_func, atoi, Atoi,
}
use hen_kai_pan.Threats.Records.{RangeEvent}

is_separator : ℕ → Bool
is_separator r = r == b'.' || r == b'-' || r == b'_'

unfoldable pub split_version : Text → List Text
unfolding is_separator
split_version v =
    let trimmed = trim_prefix (trim_prefix (trim_space v) (lit "v")) (lit "V") in
    fields_func (cut trimmed (lit "+")).0 is_separator

-- One round of the loop: 0 is Go's "go on with the next segment".
compare_numbers : ℤ → ℤ → ℤ
compare_numbers xi yi = if eq_int xi yi then pos 0 else if lt_int xi yi then negsuc 0 else pos 1

compare_words : Text → Text → ℤ
compare_words x y = if text_eq x y then pos 0 else if text_lt x y then negsuc 0 else pos 1

compare_segment : Text → Text → ℤ
compare_segment x y =
    if (atoi x).ok && (atoi y).ok
    then compare_numbers (atoi x).value (atoi y).value
    else compare_words x y

-- The first round that tells two segments apart decides.
or_else : ℤ → ℤ → ℤ
or_else c rest = if eq_int c (pos 0) then rest else c

compare_segments : List Text → List Text → ℤ
compare_segments [] [] = pos 0
compare_segments [] (y ∷ ys) = or_else (compare_segment (lit "0") y) (compare_segments [] ys)
compare_segments (x ∷ xs) [] = or_else (compare_segment x (lit "0")) (compare_segments xs [])
compare_segments (x ∷ xs) (y ∷ ys) = or_else (compare_segment x y) (compare_segments xs ys)

unfoldable pub compare_versions : Text → Text → ℤ
unfolding compare_segments compare_segment compare_numbers compare_words or_else split_version
compare_versions a b = compare_segments (split_version a) (split_version b)

-- `compareVersions(version, bound) >= 0`
abbrev pub reaches : Text → Text → Bool
reaches version bound = is_nonneg (compare_versions version bound)

pub record Walk : Type 0 where
  pub affected : Bool
  pub bounded : Bool

-- The two `if`s of the loop body.
introduce : Text → RangeEvent → Walk → Walk
introduce version e w =
    if is_empty e.introduced
    then w
    else record { affected = reaches version e.introduced; bounded = true }

arm : Walk → Walk
arm w = if w.bounded then w else record { affected = true; bounded = true }

fix_at : Text → RangeEvent → Walk → Walk
fix_at version e w = if is_empty e.fixed then w else record {
  affected = (arm w).affected && not ((arm w).affected && reaches version e.fixed);
  bounded = (arm w).bounded;
}

walk_events : Text → Walk → List RangeEvent → Walk
walk_events version w [] = w
walk_events version w (e ∷ es) = walk_events version (fix_at version e (introduce version e w)) es

unfoldable pub version_in_events : Text → List RangeEvent → Bool
unfolding walk_events introduce fix_at arm is_empty
version_in_events version events =
    let w = walk_events version (record { affected = false; bounded = false }) events in
    if w.bounded then w.affected else true
