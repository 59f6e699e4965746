-- ===== src/Scanner/Common/Paths.antt =====
-- The paths of the findings.
use hen_kai_pan.Prelude.{
  Bool, true, false, [], ◌∷◌, ◌≡◌, refl, arith, ◌&&◌, ◌||◌, not, if◌then◌else◌,
}
use hen_kai_pan.Strings.{Text, lit, is_empty, has_prefix, contains, trim_space}
use hen_kai_pan.Scanner.Common.{rooted, normalize_trimmed, normalize_finding_path}

slash-prefix : (p : Text) → has_prefix (b'/' ∷ p) (lit "/") ≡ true
unfolding has_prefix
slash-prefix p = refl

is_rooted : Text → Bool
is_rooted r = is_empty r || has_prefix r (lit "/")

rooted-is_rooted : (p : Text) → is_rooted (rooted p) ≡ true
unfolding rooted is_rooted
rooted-is_rooted p = ground (arith, slash-prefix p)

-- A path of the repository starts with a slash: what is not empty and not a URL is rooted.
abbrev pub is_finding_path : Text → Bool
is_finding_path r =
    is_empty r
    || has_prefix r (lit "/")
    || (contains r (lit "://") && not (has_prefix r (lit "file://")))

empty_path : is_empty [] ≡ true
unfolding is_empty
empty_path = refl

rooted-is_finding_path : (p : Text) → is_finding_path (rooted p) ≡ true
unfolding is_rooted
rooted-is_finding_path p = ground (arith, rooted-is_rooted p)

chosen :
    (empty url : Bool) (p r : Text)
    → (contains p (lit "://") && not (has_prefix p (lit "file://"))) ≡ url
    → is_finding_path r ≡ true
    → is_finding_path (if empty then [] else if url then p else r) ≡ true
chosen true url p r e h = ground (arith, empty_path)
chosen false true p r e h = ground arith
chosen false false p r e h = h

trimmed-is_finding_path : (p : Text) → is_finding_path (normalize_trimmed p) ≡ true
unfolding normalize_trimmed
trimmed-is_finding_path p =
    chosen (is_empty p) (contains p (lit "://") && not (has_prefix p (lit "file://"))) p _ refl
      (rooted-is_finding_path _)

-- Whatever a scanner reports as the file, the stored path is empty, starts with a slash, or is a URL that
-- is not a file's.
pub normalize_finding_path-is_finding_path :
    (path : Text) → is_finding_path (normalize_finding_path path) ≡ true
unfolding normalize_finding_path
normalize_finding_path-is_finding_path path = trimmed-is_finding_path (trim_space path)
