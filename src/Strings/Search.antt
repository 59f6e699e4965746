-- ===== src/Strings/Search.antt =====
-- `strings.Index`, `Contains`, `ContainsAny`, `Cut`, `Split`, `LastIndexByte` and `Join`.
use hen_kai_pan.Prelude.{
  ℕ, suc, Bool, true, false, List, [], ◌∷◌, ◌++◌, ◌||◌, ◌==◌, if◌then◌else◌, Option, none, some,
  any,
}
use hen_kai_pan.Strings.Basic.{Text}
use hen_kai_pan.Strings.Affix.{has_prefix, strip_prefix?}

-- strings.Cut: the parts before and after the first `sep`, and whether there is one.
unfoldable pub cut : Text → Text → Text × Text × Bool
unfolding strip_prefix?
cut [] sep = elim (strip_prefix? [] sep) [ none ↦ ([], [], false) | some r ↦ ([], r, true) ]
cut (c ∷ s) sep =
    let (before, after, found) = cut s sep in
    elim (strip_prefix? (c ∷ s) sep) [ none ↦ (c ∷ before, after, found) | some r ↦ ([], r, true) ]

-- `none` is Go's -1.
unfoldable pub index : Text → Text → Option ℕ
unfolding has_prefix
index [] sep = if has_prefix [] sep then some 0 else none
index (c ∷ s) sep =
    let later = index s sep in
    if has_prefix (c ∷ s) sep then some 0 else elim later [ none ↦ none | some i ↦ some (suc i) ]

unfoldable pub contains : Text → Text → Bool
unfolding has_prefix
contains [] sep = has_prefix [] sep
contains (c ∷ s) sep = has_prefix (c ∷ s) sep || contains s sep

unfoldable pub contains_any : Text → Text → Bool
contains_any s set = any (λ c. any (λ d. c == d) set) s

-- strings.Split by one byte
split_from : ℕ → Text → Text → List Text
split_from sep cur [] = cur ∷ []
split_from sep cur (c ∷ s) =
    let closed = split_from sep [] s in
    let longer = split_from sep (cur ++ c ∷ []) s in if c == sep then cur ∷ closed else longer

unfoldable pub split : Text → ℕ → List Text
unfolding split_from
split s sep = split_from sep [] s

unfoldable pub last_index_byte : Text → ℕ → Option ℕ
last_index_byte [] b = none
last_index_byte (c ∷ s) b = elim (last_index_byte s b) [
  | some i ↦ some (suc i)
  | none ↦ if c == b then some 0 else none
]

unfoldable pub join : List Text → Text → Text
join [] sep = []
join (x ∷ xs) sep = elim xs [ [] ↦ x | y ∷ ys ↦ x ++ sep ++ join xs sep ]
