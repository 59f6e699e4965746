-- ===== src/Strings/Basic.antt =====
-- Strings as lists of bytes: literals, equality and order.
use Prim.Native.Char.{code}
use hen_kai_pan.Prelude.{
  ℕ, String, Bool, true, false, List, [], ◌∷◌, ◌&&◌, ◌||◌, ◌==◌, ltb, ◌≡◌, ◌↔◌, refl, arith, ◌⊎◌,
}

abbrev pub Text : Type 0
Text = List ℕ

-- A Go string literal.
abbrev pub lit : String → Text
lit String.[] = []
lit (String.◌∷◌ c s) = code c ∷ lit s

-- a == b
unfoldable pub text_eq : Text → Text → Bool
text_eq [] [] = true
text_eq [] (y ∷ ys) = false
text_eq (x ∷ xs) [] = false
text_eq (x ∷ xs) (y ∷ ys) = x == y && text_eq xs ys

-- s == ""
unfoldable pub is_empty : Text → Bool
is_empty [] = true
is_empty (x ∷ xs) = false

-- a < b, byte by byte
unfoldable pub text_lt : Text → Text → Bool
text_lt [] [] = false
text_lt [] (y ∷ ys) = true
text_lt (x ∷ xs) [] = false
text_lt (x ∷ xs) (y ∷ ys) = ltb x y || (x == y && text_lt xs ys)

pub text_eq_iff : (a b : Text) → (text_eq a b ≡ true) ↔ (a ≡ b)
unfolding text_eq
text_eq_iff [] [] = ground arith
text_eq_iff [] (y ∷ ys) = ground arith
text_eq_iff (x ∷ xs) [] = ground arith
text_eq_iff (x ∷ xs) (y ∷ ys) = ground (arith, text_eq_iff xs ys)

pub text_eq_refl : (a : Text) → text_eq a a ≡ true
text_eq_refl a = (text_eq_iff a a).1 refl

pub Text-cases : (a b : Text) → (a ≡ b) ⊎ (text_eq a b ≡ false)
Text-cases a b = ground (arith, text_eq_iff a b)

pub text_lt_irrefl : (a : Text) → text_lt a a ≡ false
unfolding text_lt
text_lt_irrefl [] = refl
text_lt_irrefl (x ∷ xs) = ground (arith, text_lt_irrefl xs)

pub text_lt_asymm : (a b : Text) → text_lt a b ≡ true → text_lt b a ≡ false
unfolding text_lt
text_lt_asymm [] [] h = refl
text_lt_asymm [] (y ∷ ys) h = refl
text_lt_asymm (x ∷ xs) [] h = ground arith
text_lt_asymm (x ∷ xs) (y ∷ ys) h = ground (arith, text_lt_asymm xs ys)

pub text_lt_total : (a b : Text) → text_eq a b ≡ false → text_lt a b ≡ false → text_lt b a ≡ true
unfolding text_lt text_eq
text_lt_total [] [] h k = ground arith
text_lt_total [] (y ∷ ys) h k = ground arith
text_lt_total (x ∷ xs) [] h k = refl
text_lt_total (x ∷ xs) (y ∷ ys) h k = ground (arith, text_lt_total xs ys)

pub text_lt_trans : (a b c : Text) → text_lt a b ≡ true → text_lt b c ≡ true → text_lt a c ≡ true
unfolding text_lt
text_lt_trans [] (y ∷ ys) (z ∷ zs) h k = refl
text_lt_trans (x ∷ xs) (y ∷ ys) (z ∷ zs) h k = ground (arith, text_lt_trans xs ys zs)
text_lt_trans a b c h k = ground arith

-- A text that is not above `e` lies below all that `e` lies below.
pub text_lt-of_not_lt :
    (e a b : Text) → text_lt e a ≡ true → text_lt e b ≡ false → text_lt b a ≡ true
unfolding text_lt
text_lt-of_not_lt [] [] b h k = ground arith
text_lt-of_not_lt [] (x ∷ a) [] h k = refl
text_lt-of_not_lt [] (x ∷ a) (y ∷ b) h k = ground arith
text_lt-of_not_lt (z ∷ e) [] b h k = ground arith
text_lt-of_not_lt (z ∷ e) (x ∷ a) [] h k = refl
text_lt-of_not_lt (z ∷ e) (x ∷ a) (y ∷ b) h k = ground (arith, text_lt-of_not_lt e a b)
