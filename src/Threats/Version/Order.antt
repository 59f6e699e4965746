-- ===== src/Threats/Version/Order.antt =====
-- What the comparison of versions promises.
use hen_kai_pan.Prelude.{ℕ, zero, suc, List, [], ◌∷◌, ◌++◌, ◌≡◌, refl, arith, replicate}
use hen_kai_pan.Prelude.Int.{ℤ, pos, neg, eq_int_refl, lt_int-eq_int, lt_int_total, eq_int_comm}
use hen_kai_pan.Strings.{Text, lit, text_eq_iff, text_lt_asymm, text_lt_total, text_eq_refl, atoi}
use hen_kai_pan.Threats.Version.{
  compare_versions, split_version, compare_segments, compare_segment, compare_numbers,
  compare_words, or_else,
}

compare_numbers-swap : (x y : ℤ) → compare_numbers y x ≡ neg (compare_numbers x y)
unfolding compare_numbers
compare_numbers-swap x y =
    ground (arith, eq_int_comm x y, lt_int-eq_int x y, lt_int-eq_int y x, lt_int_total x y)

compare_words-swap : (x y : Text) → compare_words y x ≡ neg (compare_words x y)
unfolding compare_words
compare_words-swap x y = ground (
  arith,
  text_eq_iff x y,
  text_eq_iff y x,
  text_lt_asymm x y,
  text_lt_asymm y x,
  text_lt_total x y,
)

compare_segment-swap : (x y : Text) → compare_segment y x ≡ neg (compare_segment x y)
unfolding compare_segment
compare_segment-swap x y =
    ground (arith, compare_numbers-swap (atoi x).value (atoi y).value, compare_words-swap x y)

or_else-swap : (c d : ℤ) → or_else (neg c) (neg d) ≡ neg (or_else c d)
unfolding or_else
or_else-swap c d = ground arith

compare_segments-swap : (xs ys : List Text) → compare_segments ys xs ≡ neg (compare_segments xs ys)
unfolding compare_segments
compare_segments-swap [] [] = refl
compare_segments-swap [] (y ∷ ys) =
    rw (compare_segment-swap (lit "0") y, compare_segments-swap [] ys) (or_else-swap _ _)
compare_segments-swap (x ∷ xs) [] =
    rw (compare_segment-swap x (lit "0"), compare_segments-swap xs []) (or_else-swap _ _)
compare_segments-swap (x ∷ xs) (y ∷ ys) =
    rw (compare_segment-swap x y, compare_segments-swap xs ys) (or_else-swap _ _)

-- Swapping two versions flips the sign of `compareVersions`, whatever the two strings hold.
pub compare_versions-swap : (a b : Text) → compare_versions b a ≡ neg (compare_versions a b)
unfolding compare_versions
compare_versions-swap a b = compare_segments-swap (split_version a) (split_version b)

abbrev pub zeros : ℕ → List Text
zeros n = replicate n (lit "0")

zeros_lem : (n : ℕ) → compare_segments (zeros n) [] ≡ pos 0
unfolding compare_segments compare_segment compare_numbers or_else atoi
zeros_lem zero = refl
zeros_lem (suc n) = zeros_lem n

compare_segments-pad :
    (xs ys : List Text) (n : ℕ) → compare_segments (xs ++ zeros n) ys ≡ compare_segments xs ys
unfolding compare_segments
compare_segments-pad [] [] n = zeros_lem n
compare_segments-pad [] (y ∷ ys) zero = refl
compare_segments-pad [] (y ∷ ys) (suc n) = rw (compare_segments-pad [] ys n)
compare_segments-pad (x ∷ xs) [] n = rw (compare_segments-pad xs [] n)
compare_segments-pad (x ∷ xs) (y ∷ ys) n = rw (compare_segments-pad xs ys n)

-- A version whose segments are those of `a` with zeros behind them compares with every version as `a`
-- does: "1.3.0" and "1.3" are one version.
pub compare_versions-pad :
    (a b c : Text) (n : ℕ)
    → split_version b ≡ split_version a ++ zeros n
    → compare_versions b c ≡ compare_versions a c
unfolding compare_versions
compare_versions-pad a b c n h = rw h (compare_segments-pad (split_version a) (split_version c) n)

compare_segment_refl : (x : Text) → compare_segment x x ≡ pos 0
unfolding compare_segment compare_numbers compare_words
compare_segment_refl x = ground (arith, eq_int_refl (atoi x).value, text_eq_refl x)

compare_segments_refl : (xs : List Text) → compare_segments xs xs ≡ pos 0
unfolding compare_segments or_else
compare_segments_refl [] = refl
compare_segments_refl (x ∷ xs) = rw (compare_segment_refl x) (compare_segments_refl xs)

pub compare_versions_refl : (a : Text) → compare_versions a a ≡ pos 0
unfolding compare_versions
compare_versions_refl a = compare_segments_refl (split_version a)
