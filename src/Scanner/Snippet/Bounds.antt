-- ===== src/Scanner/Snippet/Bounds.antt =====
-- The slice of a preview, and the paths that are read.
use hen_kai_pan.Prelude.{
  ℕ, ◌+◌, ◌-◌, ◌^◌, ◌≤◌, ◌<◌, Bool, true, List, Option, some, ◌≡◌, refl, arith, if◌then◌else◌, ltb,
  leb, min, max, length, ◌↔◌, ◌⊎◌, ◌++◌, ap, Bool-cases, inl, inr, lt→ltb, ltb→lt,
}
use hen_kai_pan.Prelude.Int.{ℤ}
use hen_kai_pan.Strings.{Text, lit, is_empty, text_eq, text_eq_iff, has_prefix_sound}
use hen_kai_pan.Scanner.Snippet.{
  Snippet, snippet, slice_panic, empty_file_path, preview, slice_to, context_end, max_preview_lines,
  Files, extract_snippet, is_inside, normalize_snippet_path, guarded, first_line, last_line,
}

apart : {t : Text} {n : ℕ} → snippet t n ≡ slice_panic → ⊥
apart e = cc

small_not_large : (n : ℕ) → leb n max_preview_lines ≡ true → max_preview_lines < n → ⊥
small_not_large n h k = ground arith

panics_if :
    (a b : ℕ) (t : Text) (start : ℕ)
    → ((if ltb a b then slice_panic else snippet t start) ≡ slice_panic) ↔ (a < b)
panics_if a b t start = elim (Bool-cases (ltb a b)) [
  | inl e ↦ rw e ((λ q. ltb→lt a b e), (λ q. refl))
  | inr e ↦ rw e ((λ q. absurd (apart q)), (λ q. ground arith))
]

sliced_iff :
    (text : Text) (lines : List Text) (start end : ℕ)
    → (slice_to lines start (some end) ≡ slice_panic) ↔ (min end (length lines) < start - 1)
unfolding slice_to
sliced_iff text lines start end = panics_if _ (start - 1) _ start

small_or_sliced :
    (text : Text) (lines : List Text) (line_start line_end : ℕ)
    → line_start ≤ line_end
    → ((if leb (length lines) max_preview_lines
          then snippet text 1
          else slice_to lines (max (line_start - 8) 1) (some (line_end + 8)))
        ≡ slice_panic)
      ↔ ((max_preview_lines < length lines) × (length lines + 9 < line_start))
small_or_sliced text lines line_start line_end h =
    elim (Bool-cases (leb (length lines) max_preview_lines)) [
      | inl small ↦ rw small ((λ e. absurd (apart e)), (λ q. absurd (small_not_large _ small q.0)))
      | inr large ↦
          let s = sliced_iff text lines (max (line_start - 8) 1) (line_end + 8) in
          rw large
            ((λ e. let lt = s.0 e in (ground arith, ground arith)), (λ q. s.1 (ground arith)))
    ]

-- For lines that a file may have, a preview ends the program exactly where the file is large and the
-- finding's first line lies more than nine lines after its last.
pub preview_panics_iff :
    (text : Text) (lines : List Text) (line_start line_end : ℕ)
    → line_start ≤ line_end
    → line_end < 2 ^ 63 - 8
    → (preview text lines line_start line_end ≡ slice_panic)
      ↔ ((max_preview_lines < length lines) × (length lines + 9 < line_start))
unfolding preview context_end
preview_panics_iff text lines line_start line_end h k =
    rw (lt→ltb line_end (2 ^ 63 - 8) k) (small_or_sliced text lines line_start line_end h)

if_same :
    (b : Bool) (x : Snippet) {y z : Snippet} → y ≡ z → (if b then x else y) ≡ (if b then x else z)
if_same b x e = ap (λ y. if b then x else y) e

guarded_inside :
    (files : Files) (other : Text → Option Text) (clean_repo clean_path : Text) (start end : ℕ)
    → (is_inside clean_repo clean_path ≡ true → files.read clean_path ≡ other clean_path)
    → guarded files clean_repo clean_path start end
      ≡ guarded (record files { read = other }) clean_repo clean_path start end
unfolding guarded
guarded_inside files other clean_repo clean_path start end h =
    elim (Bool-cases (is_inside clean_repo clean_path)) [
      | inl e ↦ rw (e, h e) refl
      | inr e ↦ rw e refl
    ]

-- The directory itself, or what follows it and a slash.
abbrev pub IsUnder : Text → Text → Type 0
IsUnder repo path = (path ≡ repo) ⊎ ((rest : Text) × (path ≡ repo ++ lit "/" ++ rest))

is_inside-IsUnder : (repo path : Text) → is_inside repo path ≡ true → IsUnder repo path
unfolding is_inside
is_inside-IsUnder repo path h = elim (Bool-cases (text_eq path repo)) [
  | inl e ↦ inl ((text_eq_iff path repo).0 e)
  | inr e ↦ inr (has_prefix_sound path (repo ++ lit "/") (ground arith))
]

-- Two answers to the calls of `os.ReadFile` that agree on the cleaned path of the repository and on the
-- paths that go on from it with a slash give the same snippet: the file is read at no other path. Where a
-- symbolic link of the repository leads is not a matter of its path.
pub extract_snippet_inside :
    (files : Files) (other : Text → Option Text) (repo_dir file_path : Text)
    (line_start line_end : ℤ)
    → ((path : Text) → IsUnder (files.clean repo_dir) path → files.read path ≡ other path)
    → extract_snippet files repo_dir file_path line_start line_end
      ≡ extract_snippet (record files { read = other }) repo_dir file_path line_start line_end
unfolding extract_snippet guarded
extract_snippet_inside files other repo_dir file_path line_start line_end h =
    let path = files.clean (files.join_path repo_dir (normalize_snippet_path file_path)) in
    let start = first_line line_start in
    if_same (is_empty (normalize_snippet_path file_path)) empty_file_path (
      guarded_inside files other (files.clean repo_dir) path start (last_line start line_end)
        (λ e. h path (is_inside-IsUnder (files.clean repo_dir) path e)))
