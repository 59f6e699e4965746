-- ===== src/Threats/Manifest/Npm/Exact.antt =====
-- Which npm specifications count as a pinned version.
use hen_kai_pan.Prelude.{
  ℕ, true, false, [], ◌∷◌, ◌==◌, any, some, ◌≡◌, arith, Bool-cases, inl, inr, false≢true,
}
use hen_kai_pan.Strings.{
  Text, lit, text_eq, is_space, trim_space, IsSolid, EndsSolid, trim_space_solid,
  trim_space-IsSolid, has_prefix, trim_prefix, strip_prefix?, contains_any, is_digit,
}
use hen_kai_pan.Threats.Manifest.Row.{or_false_right}
use hen_kai_pan.Threats.Manifest.Npm.{resolve_npm_version, starts_with_digit}

digit_solid : (c : ℕ) → is_digit c ≡ true → is_space c ≡ false
unfolding is_digit is_space
digit_solid c d = ground arith

digit_ne :
    (c : ℕ)
    → is_digit c ≡ true
    → ((c == b'*') ≡ false)
      × ((c == b'l') ≡ false)
      × ((c == b'^') ≡ false)
      × ((c == b'~') ≡ false)
      × ((c == b'=') ≡ false)
      × ((c == b'v') ≡ false)
unfolding is_digit
digit_ne c d = (ground arith, ground arith, ground arith, ground arith, ground arith, ground arith)

-- A byte that differs from the first byte of a literal tells the texts apart.
text_eq_ne : (c k : ℕ) (s t : Text) → (c == k) ≡ false → text_eq (c ∷ s) (k ∷ t) ≡ false
unfolding text_eq
text_eq_ne c k s t h = rw h

has_prefix_ne : (c k : ℕ) (s : Text) → (c == k) ≡ false → has_prefix (c ∷ s) (k ∷ []) ≡ false
unfolding has_prefix strip_prefix?
has_prefix_ne c k s h = ground arith

trim_prefix_ne : (c k : ℕ) (s : Text) → (c == k) ≡ false → trim_prefix (c ∷ s) (k ∷ []) ≡ c ∷ s
unfolding trim_prefix strip_prefix?
trim_prefix_ne c k s h = ground arith

-- A text that starts with a digit, holds no blank, comma or bar, and ends in no white space, is taken
-- as an exact version as it stands.
resolve_npm_version_accepts :
    (c : ℕ) (s : Text)
    → is_digit c ≡ true
    → IsSolid (c ∷ s)
    → contains_any (c ∷ s) (lit " ,|") ≡ false
    → resolve_npm_version (c ∷ s) ≡ some (c ∷ s)
unfolding resolve_npm_version
resolve_npm_version_accepts c s d solid plain =
    let n = digit_ne c d in
    simp (
      trim_space_solid (c ∷ s) solid,
      plain,
      text_eq_ne c b'*' s [] n.0,
      text_eq_ne c b'l' s (lit "atest") n.1,
      has_prefix_ne c b'^' s n.2,
      has_prefix_ne c b'~' s n.3,
      trim_prefix_ne c b'=' s n.4,
      trim_prefix_ne c b'v' s n.5,
      d,
    )

-- The suffixes that `trim_prefix` leaves.
data Suffix : Text → Text → Type 0 where
  whole : {s : Text} → Suffix s s
  tail : {c : ℕ} {s t : Text} → Suffix t s → Suffix t (c ∷ s)

trim_prefix-Suffix : (s : Text) (c : ℕ) → Suffix (trim_prefix s (c ∷ [])) s
unfolding trim_prefix strip_prefix?
trim_prefix-Suffix [] c = whole
trim_prefix-Suffix (d ∷ s) c = elim (Bool-cases (d == c)) [
  | inl e ↦ rw (e, trim_prefix) (tail whole)
  | inr e ↦ rw (e, trim_prefix) whole
]

Suffix-trans : {s t u : Text} → Suffix t s → Suffix u t → Suffix u s
Suffix-trans whole q = q
Suffix-trans (tail p) q = tail (Suffix-trans p q)

Suffix-ends : {s t : Text} → Suffix t s → EndsSolid s → EndsSolid t
Suffix-ends whole h = h
Suffix-ends (tail {s = []} whole) h = tt
Suffix-ends (tail {s = d ∷ s} p) h = Suffix-ends p h

Suffix-contains :
    {s t : Text} (set : Text) → Suffix t s → contains_any s set ≡ false → contains_any t set ≡ false
unfolding contains_any
Suffix-contains set whole h = h
Suffix-contains set (tail {c = c} {s = s} p) h =
    Suffix-contains set p (or_false_right (any (λ d. c == d) set) _ h)

-- What `resolveNPMVersion` has established of a version that it returns.
record IsExact (v : Text) : Type 0 where
  digit : starts_with_digit v ≡ true
  suffix_ends : EndsSolid v
  plain : contains_any v (lit " ,|") ≡ false

accepted_again : (v : Text) → IsExact v → resolve_npm_version v ≡ some v
unfolding starts_with_digit
accepted_again [] x = absurd (false≢true x.digit)
accepted_again (c ∷ s) x =
    resolve_npm_version_accepts c s x.digit
      (record { starts = digit_solid c x.digit; ends = x.suffix_ends }) x.plain

resolve_npm_version-IsExact : (spec v : Text) → resolve_npm_version spec ≡ some v → IsExact v
unfolding resolve_npm_version
resolve_npm_version-IsExact spec v h =
    let s = trim_space spec in
    let half = trim_prefix s (lit "=") in
    let bare = trim_prefix half (lit "v") in
    let p = Suffix-trans (trim_prefix-Suffix s b'=') (trim_prefix-Suffix half b'v') in
    let same : bare ≡ v = ground arith in
    let digit : starts_with_digit bare ≡ true = ground arith in
    let none_of : contains_any s (lit " ,|") ≡ false = ground arith in
    record {
      digit = rw same at digit;
      suffix_ends = rw same at (Suffix-ends p (trim_space-IsSolid spec).ends);
      plain = rw same at (Suffix-contains (lit " ,|") p none_of);
    }

-- A resolved version starts with a digit and holds no blank, comma or bar, and resolving it again
-- gives it back.
pub resolve_npm_version_idempotent :
    (spec v : Text)
    → resolve_npm_version spec ≡ some v
    → (resolve_npm_version v ≡ some v) × (contains_any v (lit " ,|") ≡ false)
resolve_npm_version_idempotent spec v h =
    let x = resolve_npm_version-IsExact spec v h in (accepted_again v x, x.plain)
