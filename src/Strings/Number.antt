-- ===== src/Strings/Number.antt =====
-- `strconv.Atoi`, for a 64-bit `int`.
use hen_kai_pan.Prelude.{
  ℕ, ◌+◌, ◌-◌, ◌*◌, ◌^◌, Bool, true, false, [], ◌∷◌, ◌&&◌, ◌==◌, ltb, leb, if◌then◌else◌,
}
use hen_kai_pan.Prelude.Int.{ℤ, pos, neg_ℕ}
use hen_kai_pan.Strings.Basic.{Text}

-- The value, and whether `err == nil`.
pub record Atoi : Type 0 where
  pub value : ℤ
  pub ok : Bool

unfoldable pub is_digit : ℕ → Bool
is_digit c = leb b'0' c && leb c b'9'

pub data Parsed : Type 0 where
  magnitude : ℕ → Parsed
  syntax range : Parsed

-- The loop of `strconv.ParseUint` in base 10; a value that leaves 64 bits ends it.
parse_uint : ℕ → Text → Parsed
parse_uint n [] = magnitude n
parse_uint n (c ∷ s) =
    let rest = parse_uint (n * 10 + (c - b'0')) s in
    if is_digit c then (if leb (2 ^ 64) (n * 10 + (c - b'0')) then range else rest) else syntax

parse_digits : Text → Parsed
parse_digits [] = syntax
parse_digits (c ∷ s) = parse_uint 0 (c ∷ s)

signed : Bool → Parsed → Atoi
signed negative syntax = record { value = pos 0; ok = false }
signed true range = record { value = neg_ℕ (2 ^ 63); ok = false }
signed false range = record { value = pos (2 ^ 63 - 1); ok = false }
signed true (magnitude n) =
    if ltb (2 ^ 63) n
    then record { value = neg_ℕ (2 ^ 63); ok = false }
    else record { value = neg_ℕ n; ok = true }
signed false (magnitude n) =
    if leb (2 ^ 63) n
    then record { value = pos (2 ^ 63 - 1); ok = false }
    else record { value = pos n; ok = true }

unfoldable pub atoi : Text → Atoi
unfolding parse_digits parse_uint signed is_digit
atoi [] = record { value = pos 0; ok = false }
atoi (c ∷ s) =
    if c == b'-'
    then signed true (parse_digits s)
    else if c == b'+'
    then signed false (parse_digits s)
    else signed false (parse_digits (c ∷ s))
