-- ===== src/Scanner/Secrets/Lines.antt =====
-- Lines that are longer than the buffer of the scanner.
use hen_kai_pan.Prelude.{
  true, false, [], ◌∷◌, ◌++◌, Option, none, ◌≡◌, refl, any, ◌==◌, leb, length,
}
use hen_kai_pan.Strings.{Text, scan_lines_long, scan_lines_until_long}
use hen_kai_pan.Scanner.Common.{parsed}
use hen_kai_pan.Scanner.Secrets.{ThogLine, decode_each, parse_trufflehog, max_scan_token_size}

-- A line of 64 KiB or more that a line break follows ends the reading of Trufflehog's output: what comes
-- out is what the lines before it alone give, and nothing where it is the first, so that the secrets that
-- it and all later lines report are lost; and no error is returned.
pub parse_trufflehog_long :
    (sha256 : Text → Text) (marshal : ThogLine → Text) (decode : Text → Option ThogLine)
    (before line rest : Text)
    → any (λ c. c == 10) line ≡ false
    → leb max_scan_token_size (length line) ≡ true
    → (parse_trufflehog sha256 marshal decode (before ++ 10 ∷ (line ++ 10 ∷ rest))
        ≡ parse_trufflehog sha256 marshal decode (before ++ 10 ∷ []))
      × (parse_trufflehog sha256 marshal decode (line ++ 10 ∷ rest) ≡ parsed [])
      × ((parse_trufflehog sha256 marshal decode (before ++ 10 ∷ (line ++ 10 ∷ rest))).parse_err
          ≡ none)
unfolding parse_trufflehog decode_each
parse_trufflehog_long sha256 marshal decode before line rest n h = (
  rw (scan_lines_until_long max_scan_token_size before line rest n h) refl,
  rw (scan_lines_long max_scan_token_size line rest n h) refl,
  refl,
)
