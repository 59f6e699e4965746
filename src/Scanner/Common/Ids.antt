-- ===== src/Scanner/Common/Ids.antt =====
-- The CVE ids that the parsers find.
use hen_kai_pan.Prelude.{
  Bool, true, false, List, [], ◌∷◌, ◌++◌, Option, none, some, ◌≡◌, refl, ap, ◌∙◌, arith, all,
  length, inl, inr, ◌⊎◌, if◌then◌else◌, ◌&&◌, Option-cases, append_assoc,
}
use mathlib.Core.Path.{subst}
use hen_kai_pan.Strings.{
  Text, lit, is_empty, is_digit, to_upper, text_eq, text_eq_iff, to_upper-append, to_upper-digits,
  to_upper-dash,
}
use hen_kai_pan.Scanner.Common.{
  span_digits, match_number, match_year, match_cve, find_string, first_match, first_cve, some_if,
  or_else, upper_of,
}

-- "CVE-", four digits, a dash, and digits.
pub record IsCve (t : Text) : Type 0 where
  pub year : Text
  pub number : Text
  pub spelled : t ≡ lit "CVE-" ++ year ++ b'-' ∷ number
  pub year_length : length year ≡ 4
  pub year_digits : all is_digit year ≡ true
  pub number_digits : all is_digit number ≡ true
  pub numbered : is_empty number ≡ false

span_digits-all : (s : Text) → all is_digit (span_digits s).0 ≡ true
unfolding span_digits
span_digits-all [] = refl
span_digits-all (c ∷ s) = ground (arith, span_digits-all s)

some_if-eq : (b : Bool) (s m : Text) → some_if b s ≡ some m → (b ≡ true) × (s ≡ m)
unfolding some_if
some_if-eq true s m h = (refl, cc)
some_if-eq false s m h = cc

-- A match of the whole pattern, with its letters folded.
matched-IsCve :
    (before year number : Text)
    → to_upper before ≡ lit "CVE-"
    → length year ≡ 4
    → all is_digit year ≡ true
    → all is_digit number ≡ true
    → is_empty number ≡ false
    → IsCve (to_upper ((before ++ year) ++ b'-' ∷ number))
matched-IsCve before year number p l d e n = record {
  year = year;
  number = number;
  spelled =
      rw
        (
          to_upper-append (before ++ year) (b'-' ∷ number),
          to_upper-append before year,
          to_upper-dash number,
          to_upper-digits year d,
          to_upper-digits number e,
          p,
        )
        (append_assoc (lit "CVE-") year (b'-' ∷ number));
  year_length = l;
  year_digits = d;
  number_digits = e;
  numbered = n;
}

kept_if :
    (b : Bool) (x : Option Text) {m : Text}
    → (if b then x else none) ≡ some m
    → (b ≡ true) × (x ≡ some m)
kept_if true x h = (refl, h)
kept_if false x h = cc

match_number-IsCve :
    (before year s m : Text)
    → to_upper before ≡ lit "CVE-"
    → length year ≡ 4
    → all is_digit year ≡ true
    → match_number (before ++ year) s ≡ some m
    → IsCve (to_upper m)
unfolding match_number
match_number-IsCve before year [] m p l d h = cc
match_number-IsCve before year (c ∷ s) m p l d h =
    let (g, e) = some_if-eq _ _ m h in
    let dash : b'-' ≡ c = ground (arith) in
    let filled : is_empty (span_digits s).0 ≡ false = ground (arith) in
    subst (λ t. IsCve (to_upper t)) (ap (λ x. (before ++ year) ++ x ∷ (span_digits s).0) dash ∙ e)
      (matched-IsCve before year (span_digits s).0 p l d (span_digits-all s) filled)

match_year-IsCve :
    (before s m : Text)
    → to_upper before ≡ lit "CVE-"
    → match_year before s ≡ some m
    → IsCve (to_upper m)
unfolding match_year
match_year-IsCve before [] m p h = cc
match_year-IsCve before (a ∷ []) m p h = cc
match_year-IsCve before (a ∷ b ∷ []) m p h = cc
match_year-IsCve before (a ∷ b ∷ c ∷ []) m p h = cc
match_year-IsCve before (a ∷ b ∷ c ∷ d ∷ s) m p h =
    let (g, e) = kept_if (is_digit a && is_digit b && is_digit c && is_digit d) _ h in
    match_number-IsCve before (a ∷ b ∷ c ∷ d ∷ []) s m p refl (ground arith) e

match_cve-IsCve : (s m : Text) → match_cve s ≡ some m → IsCve (to_upper m)
unfolding match_cve
match_cve-IsCve [] m h = cc
match_cve-IsCve (a ∷ []) m h = cc
match_cve-IsCve (a ∷ b ∷ []) m h = cc
match_cve-IsCve (a ∷ b ∷ c ∷ []) m h = cc
match_cve-IsCve (a ∷ b ∷ c ∷ d ∷ s) m h =
    let (g, e) = kept_if (text_eq (to_upper (a ∷ b ∷ c ∷ d ∷ [])) (lit "CVE-")) _ h in
    match_year-IsCve (a ∷ b ∷ c ∷ d ∷ []) s m
      ((text_eq_iff (to_upper (a ∷ b ∷ c ∷ d ∷ [])) (lit "CVE-")).0 g) e

or_else-IsCve :
    (o later : Option Text) (m : Text)
    → ((n : Text) → o ≡ some n → IsCve (to_upper n))
    → ((n : Text) → later ≡ some n → IsCve (to_upper n))
    → or_else o later ≡ some m
    → IsCve (to_upper m)
unfolding or_else
or_else-IsCve none later m h k e = k m e
or_else-IsCve (some n) later m h k e = h m e

find_string-IsCve : (s m : Text) → find_string match_cve s ≡ some m → IsCve (to_upper m)
unfolding find_string
find_string-IsCve [] m h = cc
find_string-IsCve (c ∷ s) m h =
    or_else-IsCve (match_cve (c ∷ s)) (find_string match_cve s) m (λ n. match_cve-IsCve (c ∷ s) n)
      (λ n. find_string-IsCve s n) h

first_match-IsCve :
    (ts : List Text) → (first_match match_cve ts ≡ []) ⊎ IsCve (first_match match_cve ts)
unfolding first_match upper_of
first_match-IsCve [] = inl refl
first_match-IsCve (t ∷ ts) = elim (Option-cases (find_string match_cve t)) [
  | inl e ↦ rw e (first_match-IsCve ts)
  | inr (m, e) ↦ rw e (inr (find_string-IsCve t m e))
]

-- What `firstCVE` returns is nothing, or a CVE id in capitals: "CVE-", a year of four digits, a dash and a
-- number.
pub first_cve-IsCve :
    (candidates : List Text) → (first_cve candidates ≡ []) ⊎ IsCve (first_cve candidates)
unfolding first_cve
first_cve-IsCve candidates = first_match-IsCve candidates
