-- ===== src/Strings/Affix.antt =====
-- `strings.HasPrefix`, `TrimPrefix`, `HasSuffix`, `TrimSuffix` and `Trim`.
use hen_kai_pan.Prelude.{
  Bool, true, false, [], ◌∷◌, ◌&&◌, ◌||◌, ◌==◌, if◌then◌else◌, Option, none, some, any, ◌++◌, ◌≡◌,
  refl, arith, false≢true,
}
use hen_kai_pan.Strings.Basic.{Text, text_eq, is_empty}

-- What follows the prefix `p`, where `s` has it.
unfoldable pub strip_prefix? : Text → Text → Option Text
strip_prefix? s [] = some s
strip_prefix? [] (y ∷ ys) = none
strip_prefix? (x ∷ xs) (y ∷ ys) = let rest = strip_prefix? xs ys in if x == y then rest else none

unfoldable pub has_prefix : Text → Text → Bool
unfolding strip_prefix?
has_prefix s p = elim (strip_prefix? s p) [ none ↦ false | some r ↦ true ]

unfoldable pub trim_prefix : Text → Text → Text
unfolding strip_prefix?
trim_prefix s p = elim (strip_prefix? s p) [ none ↦ s | some r ↦ r ]

unfoldable pub has_suffix : Text → Text → Bool
unfolding text_eq
has_suffix [] p = is_empty p
has_suffix (x ∷ xs) p = text_eq (x ∷ xs) p || has_suffix xs p

unfoldable pub trim_suffix : Text → Text → Text
unfolding text_eq
trim_suffix [] p = []
trim_suffix (x ∷ xs) p = if text_eq (x ∷ xs) p then [] else x ∷ trim_suffix xs p

-- strings.Trim(s, set)
trim_left_set : Text → Text → Text
trim_left_set set [] = []
trim_left_set set (c ∷ s) =
    let rest = trim_left_set set s in if any (λ d. c == d) set then rest else c ∷ s

trim_right_set : Text → Text → Text
trim_right_set set [] = []
trim_right_set set (c ∷ s) =
    let rest = trim_right_set set s in
    if any (λ d. c == d) set && is_empty rest then [] else c ∷ rest

unfoldable pub trim_set : Text → Text → Text
unfolding trim_left_set trim_right_set is_empty
trim_set s set = trim_right_set set (trim_left_set set s)

strip_prefix?_sound : (s p r : Text) → strip_prefix? s p ≡ some r → s ≡ p ++ r
unfolding strip_prefix?
strip_prefix?_sound s [] r h = cc
strip_prefix?_sound [] (y ∷ ys) r h = cc
strip_prefix?_sound (x ∷ xs) (y ∷ ys) r h =
    let same : (x == y) ≡ true = ground arith in
    let rest : strip_prefix? xs ys ≡ some r = ground arith in
    let e : x ≡ y = ground arith in rw (e, strip_prefix?_sound xs ys r rest) refl

stripped :
    (s p : Text) (o : Option Text)
    → strip_prefix? s p ≡ o
    → elim o [ none ↦ false | some r ↦ true ] ≡ true
    → (rest : Text) × (s ≡ p ++ rest)
stripped s p none e h = absurd (false≢true h)
stripped s p (some r) e h = (r, strip_prefix?_sound s p r e)

-- A text with a prefix goes on from it.
pub has_prefix_sound : (s p : Text) → has_prefix s p ≡ true → (rest : Text) × (s ≡ p ++ rest)
unfolding has_prefix
has_prefix_sound s p h = stripped s p (strip_prefix? s p) refl h
