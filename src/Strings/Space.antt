-- ===== src/Strings/Space.antt =====
-- `strings.TrimSpace`, `strings.Fields` and `strings.FieldsFunc`.
use hen_kai_pan.Prelude.{
  ℕ, Bool, false, List, [], ◌∷◌, ◌++◌, ◌&&◌, ◌||◌, ◌==◌, if◌then◌else◌, ◌≡◌, refl, arith, leb, All,
  any, Bool-cases, inl, inr,
}
use hen_kai_pan.Strings.Basic.{Text, is_empty}

-- '\t', '\n', '\v', '\f', '\r' and ' '
unfoldable pub is_space : ℕ → Bool
is_space c = (leb 9 c && leb c 13) || c == 32

trim_left : Text → Text
trim_left [] = []
trim_left (c ∷ s) = let rest = trim_left s in if is_space c then rest else c ∷ s

trim_right : Text → Text
trim_right [] = []
trim_right (c ∷ s) = let rest = trim_right s in if is_space c && is_empty rest then [] else c ∷ rest

unfoldable pub trim_space : Text → Text
unfolding trim_left trim_right is_space is_empty
trim_space s = trim_right (trim_left s)

-- The fields between runs of bytes that `sep` accepts; `cur` is the field being read.
fields_from : (ℕ → Bool) → Text → Text → List Text
fields_from sep cur [] = if is_empty cur then [] else cur ∷ []
fields_from sep cur (c ∷ s) =
    let closed = fields_from sep [] s in
    let longer = fields_from sep (cur ++ c ∷ []) s in
    if sep c then (if is_empty cur then closed else cur ∷ closed) else longer

unfoldable pub fields_func : Text → (ℕ → Bool) → List Text
unfolding fields_from is_empty
fields_func s sep = fields_from sep [] s

unfoldable pub fields : Text → List Text
unfolding fields_func is_space
fields s = fields_func s is_space

-- The last byte, and the first byte, is not white space.
abbrev pub EndsSolid : Text → Type 0
EndsSolid [] = Unit
EndsSolid (c ∷ []) = is_space c ≡ false
EndsSolid (c ∷ d ∷ s) = EndsSolid (d ∷ s)

abbrev pub StartsSolid : Text → Type 0
StartsSolid [] = Unit
StartsSolid (c ∷ s) = is_space c ≡ false

pub record IsSolid (s : Text) : Type 0 where
  pub starts : StartsSolid s
  pub ends : EndsSolid s

keep-ends :
    (c : ℕ) (r : Text) → EndsSolid r → EndsSolid (if is_space c && is_empty r then [] else c ∷ r)
unfolding is_empty
keep-ends c [] h = elim (Bool-cases (is_space c)) [ inl e ↦ rw e tt | inr e ↦ rw e e ]
keep-ends c (d ∷ r) h = elim (Bool-cases (is_space c)) [ inl e ↦ rw e h | inr e ↦ rw e h ]

trim_right-ends : (s : Text) → EndsSolid (trim_right s)
unfolding trim_right
trim_right-ends [] = tt
trim_right-ends (c ∷ s) = keep-ends c (trim_right s) (trim_right-ends s)

trim_right-starts : (s : Text) → StartsSolid s → StartsSolid (trim_right s)
unfolding trim_right is_empty
trim_right-starts [] h = tt
trim_right-starts (c ∷ s) h = rw h h

trim_left-starts : (s : Text) → StartsSolid (trim_left s)
unfolding trim_left
trim_left-starts [] = tt
trim_left-starts (c ∷ s) = elim (Bool-cases (is_space c)) [
  | inl e ↦ rw e (trim_left-starts s)
  | inr e ↦ rw e e
]

trim_left_solid : (s : Text) → StartsSolid s → trim_left s ≡ s
unfolding trim_left
trim_left_solid [] h = refl
trim_left_solid (c ∷ s) h = rw h

trim_right_solid : (s : Text) → EndsSolid s → trim_right s ≡ s
unfolding trim_right is_empty
trim_right_solid [] h = refl
trim_right_solid (c ∷ []) h = rw h
trim_right_solid (c ∷ d ∷ s) h =
    rw (trim_right_solid (d ∷ s) h, trim_right) (ground (arith, trim_right_solid (d ∷ s) h))

-- Trimming leaves a text alone that neither starts nor ends with white space.
pub trim_space_solid : (s : Text) → IsSolid s → trim_space s ≡ s
unfolding trim_space
trim_space_solid s h = rw (trim_left_solid s h.starts) (trim_right_solid s h.ends)

any-ends : (s : Text) → any is_space s ≡ false → EndsSolid s
any-ends [] h = tt
any-ends (c ∷ []) h = ground arith
any-ends (c ∷ d ∷ s) h = any-ends (d ∷ s) (ground arith)

any-starts : (s : Text) → any is_space s ≡ false → StartsSolid s
any-starts [] h = tt
any-starts (c ∷ s) h = ground arith

pub any-IsSolid : (s : Text) → any is_space s ≡ false → IsSolid s
any-IsSolid s h = record { starts = any-starts s h; ends = any-ends s h }

pub trim_space-IsSolid : (s : Text) → IsSolid (trim_space s)
unfolding trim_space
trim_space-IsSolid s = record {
  starts = trim_right-starts (trim_left s) (trim_left-starts s);
  ends = trim_right-ends (trim_left s);
}

fields_from-All :
    (sep : ℕ → Bool) (cur s : Text) → All (λ f. is_empty f ≡ false) (fields_from sep cur s)
unfolding fields_from
fields_from-All sep cur [] = elim (Bool-cases (is_empty cur)) [
  | inl e ↦ rw e tt
  | inr e ↦ rw e (e, tt)
]
fields_from-All sep cur (c ∷ s) = elim (Bool-cases (sep c)) [
  | inl e ↦ elim (Bool-cases (is_empty cur)) [
    | inl k ↦ rw (e, k) (fields_from-All sep [] s)
    | inr k ↦ rw (e, k) (k, fields_from-All sep [] s)
  ]
  | inr e ↦ rw e (fields_from-All sep (cur ++ c ∷ []) s)
]

-- No field is empty.
pub fields-All : (s : Text) → All (λ f. is_empty f ≡ false) (fields s)
unfolding fields
fields-All s = fields_from-All is_space [] s

any-trim_left : (p : ℕ → Bool) (s : Text) → any p s ≡ false → any p (trim_left s) ≡ false
unfolding trim_left
any-trim_left p [] h = refl
any-trim_left p (c ∷ s) h = ground (arith, any-trim_left p s)

any-trim_right : (p : ℕ → Bool) (s : Text) → any p s ≡ false → any p (trim_right s) ≡ false
unfolding trim_right
any-trim_right p [] h = refl
any-trim_right p (c ∷ s) h = ground (arith, any-trim_right p s)

-- Trimming adds no byte.
pub any-trim_space : (p : ℕ → Bool) (s : Text) → any p s ≡ false → any p (trim_space s) ≡ false
unfolding trim_space
any-trim_space p s h = any-trim_right p (trim_left s) (any-trim_left p s h)
