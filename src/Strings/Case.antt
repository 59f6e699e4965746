-- ===== src/Strings/Case.antt =====
-- `strings.ToLower`, `ToUpper` and `EqualFold`.
use hen_kai_pan.Prelude.{
  ℕ, ◌+◌, ◌-◌, Bool, true, [], ◌∷◌, ◌++◌, ◌&&◌, leb, if◌then◌else◌, map, all, ◌≡◌, refl, ap, arith,
}
use hen_kai_pan.Strings.Basic.{Text, text_eq}
use hen_kai_pan.Strings.Number.{is_digit}

lower : ℕ → ℕ
lower c = if leb b'A' c && leb c b'Z' then c + 32 else c

upper : ℕ → ℕ
upper c = if leb b'a' c && leb c b'z' then c - 32 else c

unfoldable pub to_lower : Text → Text
unfolding lower
to_lower s = map lower s

unfoldable pub to_upper : Text → Text
unfolding upper
to_upper s = map upper s

unfoldable pub equal_fold : Text → Text → Bool
unfolding to_lower text_eq
equal_fold a b = text_eq (to_lower a) (to_lower b)

pub to_upper-append : (s t : Text) → to_upper (s ++ t) ≡ to_upper s ++ to_upper t
unfolding to_upper
to_upper-append [] t = refl
to_upper-append (c ∷ s) t = ap (λ r. upper c ∷ r) (to_upper-append s t)

upper-digit : (c : ℕ) → is_digit c ≡ true → upper c ≡ c
unfolding upper is_digit
upper-digit c h = ground arith

-- Digits and '-' have no case.
pub to_upper-digits : (s : Text) → all is_digit s ≡ true → to_upper s ≡ s
unfolding to_upper
to_upper-digits [] h = refl
to_upper-digits (c ∷ s) h = ground (arith, upper-digit c, to_upper-digits s)

pub to_upper-dash : (s : Text) → to_upper (b'-' ∷ s) ≡ b'-' ∷ to_upper s
unfolding to_upper upper
to_upper-dash s = refl
