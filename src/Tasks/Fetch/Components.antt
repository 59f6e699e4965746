-- ===== src/Tasks/Fetch/Components.antt =====
-- The owner and the name that `parseGitHubRepo` accepts.
use hen_kai_pan.Prelude.{
  ℕ, ◌≤◌, ◌≢◌, ◌⊎◌, All, false≢true, sym, ◌∙◌, Bool, true, false, List, [], ◌∷◌, Option, none, some,
  ◌≡◌, refl, arith, if◌then◌else◌, all, ap, guard-some, Bool-cases, inl, inr, ◌||◌, ◌&&◌, not,
}
use mathlib.Core.Path.{subst}
use hen_kai_pan.Strings.{
  Text, trim_suffix, lit, text_eq, text_eq_iff, is_empty, trim_space, equal_fold,
}
use hen_kai_pan.Tasks.Fetch.{
  Project, Url, Repo, is_repo_byte, is_repo_path_component, repo_of, split_path, parse_raw,
  parse_url, parse_git_hub_repo,
}

-- A letter, a digit, '.', '_' or '-'.
abbrev pub IsPlain : ℕ → Type 0
IsPlain c =
    ((b'a' ≤ c) × (c ≤ b'z'))
    ⊎ ((b'A' ≤ c) × (c ≤ b'Z'))
    ⊎ ((b'0' ≤ c) × (c ≤ b'9'))
    ⊎ (c ≡ b'.')
    ⊎ (c ≡ b'_')
    ⊎ (c ≡ b'-')

-- One component of a path: not empty, not a dot or two, and of plain bytes alone, so that no slash, percent
-- sign, question mark, number sign, blank or control byte is among them.
pub record IsComponent (s : Text) : Type 0 where
  pub filled : s ≢ []
  pub not_dot : s ≢ lit "."
  pub not_dots : s ≢ lit ".."
  pub plain : All IsPlain s

repo_byte-IsPlain : (c : ℕ) → is_repo_byte c ≡ true → IsPlain c
unfolding is_repo_byte
repo_byte-IsPlain c h = ground arith

repo_bytes-IsPlain : (s : Text) → all is_repo_byte s ≡ true → All IsPlain s
repo_bytes-IsPlain [] h = tt
repo_bytes-IsPlain (c ∷ s) h =
    (repo_byte-IsPlain c (ground arith), repo_bytes-IsPlain s (ground arith))

differs : (s t : Text) → text_eq s t ≡ false → s ≢ t
differs s t h e = false≢true (sym h ∙ (text_eq_iff s t).1 e)

not_nil : (s : Text) → is_empty s ≡ false → s ≢ []
unfolding is_empty
not_nil s h e = false≢true (sym h ∙ ap is_empty e)

component-IsComponent : (s : Text) → is_repo_path_component s ≡ true → IsComponent s
unfolding is_repo_path_component
component-IsComponent s h = record {
  filled = not_nil s (ground arith);
  not_dot = differs s (lit ".") (ground arith);
  not_dots = differs s (lit "..") (ground arith);
  plain = repo_bytes-IsPlain s (ground arith);
}

-- The parts of a repository that is fetched from.
pub record IsRepo (r : Repo) : Type 0 where
  pub owner : IsComponent r.owner
  pub repo : IsComponent r.repo
  pub branch : is_empty r.branch ≡ false

passed : (x y : Bool) → (not x || not y) ≡ false → (x ≡ true) × (y ≡ true)
passed x y h = ground arith

branch_of : Text → Text
branch_of d = if is_empty (trim_space d) then lit "main" else trim_space d

branch_of-filled : (d : Text) → is_empty (branch_of d) ≡ false
unfolding branch_of is_empty
branch_of-filled d = elim (Bool-cases (is_empty (trim_space d))) [
  | inl e ↦ rw e refl
  | inr e ↦ rw e e
]

built-IsRepo :
    (d a b : Text) (r : Repo)
    → (is_repo_path_component a ≡ true) × (is_repo_path_component b ≡ true)
    → some (record { owner = a; repo = b; branch = branch_of d }) ≡ some r
    → IsRepo r
built-IsRepo d a b r (p, q) h =
    let e : record { owner = a; repo = b; branch = branch_of d } ≡ r = cc in
    subst IsRepo e (record {
      owner = component-IsComponent a p;
      repo = component-IsComponent b q;
      branch = branch_of-filled d;
    })

repo_of-IsRepo :
    (default_branch : Text) (parts : List Text) (r : Repo)
    → repo_of default_branch parts ≡ some r
    → IsRepo r
unfolding repo_of branch_of
repo_of-IsRepo default_branch [] r h = cc
repo_of-IsRepo default_branch (a ∷ []) r h = cc
repo_of-IsRepo default_branch (a ∷ b ∷ parts) r h =
    let (p, h2) = guard-some (is_empty a || is_empty b) _ h in
    let (q, h3) =
      guard-some
        (not (is_repo_path_component a)
          || not (is_repo_path_component (trim_suffix b (lit ".git"))))
        _ h2 in
    built-IsRepo default_branch a _ r (passed _ _ q) h3

split_path-IsRepo : (d : Text) (o : Option Text) (r : Repo) → split_path d o ≡ some r → IsRepo r
unfolding split_path
split_path-IsRepo d none r h = cc
split_path-IsRepo d (some p) r h = repo_of-IsRepo d _ r h

parse_url-IsRepo :
    (parse : Text → Option Url) (d : Text) (o : Option Text) (r : Repo)
    → parse_url parse d o ≡ some r
    → IsRepo r
unfolding parse_url parse_raw
parse_url-IsRepo parse d none r h = cc
parse_url-IsRepo parse d (some url) r h =
    split_path-IsRepo d _ r (guard-some (is_empty (trim_space url)) _ h).1

-- Whatever the URL of the project, an accepted owner and name are each one component of a path: not empty,
-- neither "." nor "..", and made of letters, digits, '.', '_' and '-' alone; and the branch is not empty.
pub parse_git_hub_repo-IsRepo :
    (parse : Text → Option Url) (project : Project) (r : Repo)
    → parse_git_hub_repo parse project ≡ some r
    → IsRepo r
unfolding parse_git_hub_repo
parse_git_hub_repo-IsRepo parse project r h =
    parse_url-IsRepo parse project.default_branch project.repo_url r
      (guard-some
        (not (is_empty project.provider)
          && not (equal_fold (trim_space project.provider) (lit "github")))
        _ h).1
