-- ===== src/Strings/Paths.antt =====
-- `path.Base`, and the lines that a `bufio.Scanner` reads.
use hen_kai_pan.Prelude.{
  ℕ, Bool, true, false, List, [], ◌∷◌, ◌++◌, ◌&&◌, ◌==◌, leb, length, if◌then◌else◌, any, ◌≡◌, refl,
  arith, Bool-cases, inl, inr, append-nil, append_assoc,
}
use hen_kai_pan.Strings.Basic.{Text, lit, is_empty}

trim_slashes : Text → Text
trim_slashes [] = []
trim_slashes (c ∷ s) =
    let rest = trim_slashes s in if c == b'/' && is_empty rest then [] else c ∷ rest

after_last_slash : Text → Text → Text
after_last_slash cur [] = cur
after_last_slash cur (c ∷ s) = after_last_slash (if c == b'/' then [] else cur ++ c ∷ []) s

unfoldable pub path_base : Text → Text
unfolding trim_slashes after_last_slash is_empty
path_base p =
    if is_empty p
    then lit "."
    else let name = after_last_slash [] (trim_slashes p) in if is_empty name then lit "/" else name

-- The lines read, and whether the scanner stopped at a line that its buffer cannot hold.
pub record Scanned : Type 0 where
  pub lines : List Text
  pub too_long : Bool

abbrev no_more : Scanned
no_more = record { lines = []; too_long = false }

drop_cr : Text → Text
drop_cr [] = []
drop_cr (c ∷ s) = let rest = drop_cr s in if c == 13 && is_empty s then [] else c ∷ rest

emit : ℕ → Text → Scanned → Scanned
emit limit line rest =
    if leb limit (length line)
    then record { lines = []; too_long = true }
    else record { lines = drop_cr line ∷ rest.lines; too_long = rest.too_long }

-- `cur` is the line being read. A last line that is empty is no line.
read_lines : ℕ → Text → Text → Scanned
read_lines limit cur [] = if is_empty cur then no_more else emit limit cur no_more
read_lines limit cur (c ∷ s) =
    let next = read_lines limit [] s in
    let longer = read_lines limit (cur ++ c ∷ []) s in
    if c == 10 then emit limit cur next else longer

-- `limit` is the second argument of `Scanner.Buffer`.
unfoldable pub scan_lines : ℕ → Text → Scanned
unfolding read_lines emit drop_cr is_empty
scan_lines limit s = read_lines limit [] s

emit_long :
    (limit : ℕ) (line : Text) (rest : Scanned)
    → leb limit (length line) ≡ true
    → emit limit line rest ≡ record { lines = []; too_long = true }
unfolding emit
emit_long limit line rest h = rw h refl

read_lines_long :
    (limit : ℕ) (cur line rest : Text)
    → any (λ c. c == 10) line ≡ false
    → leb limit (length (cur ++ line)) ≡ true
    → read_lines limit cur (line ++ 10 ∷ rest) ≡ record { lines = []; too_long = true }
unfolding read_lines
read_lines_long limit cur [] rest n h = emit_long limit cur _ (rw (append-nil cur) at h)
read_lines_long limit cur (c ∷ line) rest n h =
    let other : (c == 10) ≡ false = ground arith in
    let later : any (λ d. d == 10) line ≡ false = ground arith in
    rw other (
      read_lines_long limit (cur ++ c ∷ []) line rest later (rw (append_assoc cur (c ∷ []) line) h))

-- A line that the buffer cannot hold ends the scan: neither it nor what follows is read.
pub scan_lines_long :
    (limit : ℕ) (line rest : Text)
    → any (λ c. c == 10) line ≡ false
    → leb limit (length line) ≡ true
    → (scan_lines limit (line ++ 10 ∷ rest)).lines ≡ []
unfolding scan_lines
scan_lines_long limit line rest n h = rw (read_lines_long limit [] line rest n h) refl

emit_same :
    (limit : ℕ) (line : Text) (a b : Scanned)
    → a.lines ≡ b.lines
    → (emit limit line a).lines ≡ (emit limit line b).lines
unfolding emit
emit_same limit line a b h = elim (Bool-cases (leb limit (length line))) [
  | inl e ↦ rw e refl
  | inr e ↦ rw (e, h) refl
]

read_lines_unread :
    (limit : ℕ) (cur before tail : Text)
    → (read_lines limit [] tail).lines ≡ []
    → (read_lines limit cur (before ++ 10 ∷ tail)).lines
      ≡ (read_lines limit cur (before ++ 10 ∷ [])).lines
unfolding read_lines is_empty
read_lines_unread limit cur [] tail h = emit_same limit cur (read_lines limit [] tail) no_more h
read_lines_unread limit cur (c ∷ before) tail h =
    let next = read_lines_unread limit [] before tail h in
    let longer = read_lines_unread limit (cur ++ c ∷ []) before tail h in
    elim (Bool-cases (c == 10)) [
      | inl e ↦ rw e (emit_same limit cur _ _ next)
      | inr e ↦ rw e longer
    ]

-- The lines before a line that the buffer cannot hold are read, and no other.
pub scan_lines_until_long :
    (limit : ℕ) (before line rest : Text)
    → any (λ c. c == 10) line ≡ false
    → leb limit (length line) ≡ true
    → (scan_lines limit (before ++ 10 ∷ (line ++ 10 ∷ rest))).lines
      ≡ (scan_lines limit (before ++ 10 ∷ [])).lines
unfolding scan_lines
scan_lines_until_long limit before line rest n h =
    read_lines_unread limit [] before (line ++ 10 ∷ rest) (scan_lines_long limit line rest n h)
