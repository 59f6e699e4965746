-- ===== src/Scanner/Snippet.antt =====
-- internal/scanner/snippet.go: the lines around a finding. `filepath.Join`, `filepath.Clean` and
-- `os.ReadFile` are parameters.
pub mod Bounds
use hen_kai_pan.Prelude.{
  ℕ, ◌+◌, ◌-◌, ◌*◌, ◌^◌, ◌≤◌, Bool, true, false, List, [], ◌∷◌, ◌++◌, Option, none, some,
  if◌then◌else◌, ◌&&◌, ◌||◌, not, ltb, leb, min, max, length, take, drop,
}
use hen_kai_pan.Prelude.Int.{ℤ, pos, negsuc, lt_int}
use hen_kai_pan.Strings.{
  Text, lit, text_eq, is_empty, trim_space, trim_prefix, contains, has_prefix, split, join,
}

abbrev pub max_preview_lines : ℕ
max_preview_lines = 400

-- A text with the line that it starts at, an error, or a slice whose bounds end the program.
pub data Snippet : Type 0 where
  snippet : Text → ℕ → Snippet
  empty_file_path invalid_file_path unreadable : Snippet
  slice_panic : Snippet

normalize_trimmed_path : Text → Text
normalize_trimmed_path path =
    let file = trim_prefix path (lit "file://") in
    let mounted = if has_prefix file (lit "/src/") then trim_prefix file (lit "/src") else file in
    let relative =
      if has_prefix mounted (lit "src/")
      then lit "/" ++ trim_prefix mounted (lit "src/")
      else mounted in
    let rooted = if not (has_prefix relative (lit "/")) then lit "/" ++ relative else relative in
    if is_empty path
    then []
    else if contains path (lit "://") && not (has_prefix path (lit "file://"))
    then path
    else trim_prefix rooted (lit "/")

unfoldable pub normalize_snippet_path : Text → Text
unfolding normalize_trimmed_path trim_space
normalize_snippet_path path = normalize_trimmed_path (trim_space path)

-- `strings.ReplaceAll(text, "\r\n", "\n")`
unix_lines : Text → Text
unix_lines [] = []
unix_lines (c ∷ s) =
    let rest = unix_lines s in if has_prefix (c ∷ s) (lit "\r\n") then rest else c ∷ rest

-- `if lineStart <= 0 { lineStart = 1 }`
pub first_line : ℤ → ℕ
first_line (pos n) = max n 1
first_line (negsuc n) = 1

-- `if lineEnd < lineStart { lineEnd = lineStart }`
pub last_line : ℕ → ℤ → ℕ
last_line start (pos n) = max n start
last_line start (negsuc n) = start

-- `lineEnd + contextAfter` in 64 bits: `none` where the sum wraps around to a negative number.
unfoldable pub context_end : ℕ → Option ℕ
context_end line_end = if ltb line_end (2 ^ 63 - 8) then some (line_end + 8) else none

slice_to : List Text → ℕ → Option ℕ → Snippet
slice_to lines start none = slice_panic
slice_to lines start (some end) =
    let stop = min end (length lines) in
    if ltb stop (start - 1)
    then slice_panic
    else snippet (join (take (stop - (start - 1)) (drop (start - 1) lines)) (lit "\n")) start

-- The lines from `line_start - 8` to `line_end + 8`; a slice from beyond its end ends the program.
unfoldable pub preview : Text → List Text → ℕ → ℕ → Snippet
unfolding slice_to context_end
preview text lines line_start line_end =
    if leb (length lines) max_preview_lines
    then snippet text 1
    else slice_to lines (max (line_start - 8) 1) (context_end line_end)

pub record Files : Type 0 where
  pub join_path : Text → Text → Text
  pub clean : Text → Text
  -- At a path, through the symbolic links that it has.
  pub read : Text → Option Text

read_preview : Option Text → ℕ → ℕ → Snippet
unfolding preview unix_lines split
read_preview none line_start line_end = unreadable
read_preview (some content) line_start line_end =
    preview (unix_lines content) (split (unix_lines content) b'\n') line_start line_end

-- The guard on the path, and the file that is read.
unfoldable pub is_inside : Text → Text → Bool
is_inside clean_repo clean_path =
    text_eq clean_path clean_repo || has_prefix clean_path (clean_repo ++ lit "/")

guarded : Files → Text → Text → ℕ → ℕ → Snippet
unfolding is_inside read_preview
guarded files clean_repo clean_path line_start line_end =
    if not (is_inside clean_repo clean_path)
    then invalid_file_path
    else read_preview (files.read clean_path) line_start line_end

unfoldable pub extract_snippet : Files → Text → Text → ℤ → ℤ → Snippet
unfolding guarded normalize_snippet_path first_line last_line is_empty
extract_snippet files repo_dir file_path line_start line_end =
    let start = first_line line_start in
    let rel_path = normalize_snippet_path file_path in
    if is_empty rel_path
    then empty_file_path
    else guarded files (files.clean repo_dir) (files.clean (files.join_path repo_dir rel_path))
        start (last_line start line_end)
