-- ===== src/Strings.antt =====
-- The functions of Go's `strings` and `strconv` that the program calls. A string is the list of its
-- bytes. White space and the case of letters are those of ASCII.
mod Basic
mod Space
mod Affix
mod Search
mod Case
mod Number
mod Paths
pub use Basic.{Text, lit, text_eq_iff, text_eq_refl, Text-cases}
unfoldable pub use Basic.{text_eq, text_lt, is_empty}
pub use Basic.{text_lt_asymm, text_lt_total, text_lt_irrefl, text_lt_trans, text_lt-of_not_lt}
unfoldable pub use Space.{is_space, trim_space, fields, fields_func}
pub use Space.{
  any-IsSolid, any-trim_space, trim_space_solid, IsSolid, EndsSolid, trim_space-IsSolid, fields-All,
}
unfoldable pub use Affix.{has_prefix, trim_prefix, has_suffix, trim_suffix, strip_prefix?, trim_set}
pub use Affix.{has_prefix_sound}
pub use Case.{to_upper-append, to_upper-digits, to_upper-dash}
unfoldable pub use Search.{index, contains, contains_any, cut, split, last_index_byte, join}
unfoldable pub use Case.{to_lower, to_upper, equal_fold}
pub use Number.{Atoi}
unfoldable pub use Number.{atoi, is_digit}
unfoldable pub use Paths.{path_base, scan_lines}
pub use Paths.{Scanned, scan_lines_until_long, scan_lines_long}
