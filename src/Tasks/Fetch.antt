-- ===== src/Tasks/Fetch.antt =====
-- The download of a manifest, internal/tasks/threat_fetch.go. `url.Parse`, `url.QueryEscape` and the HTTP
-- client are parameters.
pub mod Components
pub mod FirstHit
use hen_kai_pan.Prelude.{
  ℕ, suc, ◌*◌, Bool, true, false, List, [], ◌∷◌, ◌++◌, Option, none, some, if◌then◌else◌, ◌&&◌,
  ◌||◌, not, ltb, leb, ◌==◌, take, length, all, drop,
}
use hen_kai_pan.Strings.{
  Text, lit, text_eq, is_empty, trim_space, index, contains, contains_any, has_prefix, trim_prefix,
  trim_suffix, trim_set, equal_fold, split,
}

-- `models.Project`: what the sync reads of it.
pub record Project : Type 0 where
  pub id : Text
  pub provider : Text
  pub repo_url : Option Text
  pub default_branch : Text

-- What `url.Parse` answers.
pub record Url : Type 0 where
  pub host : Text
  pub escaped_path : Text

pub record Repo : Type 0 where
  pub owner : Text
  pub repo : Text
  pub branch : Text

-- 'a'-'z', 'A'-'Z', '0'-'9', '.', '_' and '-'
pub is_repo_byte : ℕ → Bool
is_repo_byte c =
    (leb b'a' c && leb c b'z')
    || (leb b'A' c && leb c b'Z')
    || (leb b'0' c && leb c b'9')
    || c == b'.'
    || c == b'_'
    || c == b'-'

unfoldable pub is_repo_path_component : Text → Bool
unfolding is_repo_byte
is_repo_path_component s =
    if is_empty s || text_eq s (lit ".") || text_eq s (lit "..") then false else all is_repo_byte s

is_pair : List Text → Bool
unfolding is_repo_path_component
is_pair (a ∷ b ∷ []) =
    is_repo_path_component (trim_suffix a (lit ".git"))
    && is_repo_path_component (trim_suffix b (lit ".git"))
is_pair parts = false

unfoldable pub is_bare_repo_ref : Text → Bool
unfolding is_pair
is_bare_repo_ref s =
    if contains s (lit "://") || contains s (lit "@") || contains_any s (lit " \t\n?")
    then false
    else is_pair (split s b'/')

-- The fragment of a clone URL is dropped.
cut_fragment : Text → Option ℕ → Text
cut_fragment raw none = raw
cut_fragment raw (some i) = trim_space (take i raw)

after_host : Text → Option ℕ → Text
after_host rest none = rest
after_host rest (some i) = drop (length (lit "github.com/")) (drop i rest)

url_path : Option Url → Option Text
url_path none = none
url_path (some u) =
    if is_empty u.host
    then none
    else if not (equal_fold u.host (lit "github.com"))
        && not (equal_fold u.host (lit "www.github.com"))
    then none
    else some (trim_prefix u.escaped_path (lit "/"))

-- The switch on the shape of the reference.
path_of : (Text → Option Url) → Text → Option Text
unfolding after_host is_bare_repo_ref url_path
path_of parse raw =
    if has_prefix raw (lit "git@github.com:")
    then some (trim_prefix raw (lit "git@github.com:"))
    else if has_prefix raw (lit "https://github.com/")
        || has_prefix raw (lit "http://github.com/")
        || has_prefix raw (lit "github.com/")
    then some (after_host raw (index raw (lit "github.com/")))
    else if is_bare_repo_ref raw
    then some raw
    else if contains raw (lit "://")
    then none
    else url_path (parse raw)

pub repo_of : Text → List Text → Option Repo
unfolding is_repo_path_component
repo_of default_branch [] = none
repo_of default_branch (a ∷ []) = none
repo_of default_branch (a ∷ b ∷ parts) =
    if is_empty a || is_empty b
    then none
    else if not (is_repo_path_component a)
        || not (is_repo_path_component (trim_suffix b (lit ".git")))
    then none
    else some (record {
      owner = a;
      repo = trim_suffix b (lit ".git");
      branch =
          if is_empty (trim_space default_branch) then lit "main" else trim_space default_branch;
    })

pub split_path : Text → Option Text → Option Repo
unfolding repo_of
split_path default_branch none = none
split_path default_branch (some path) =
    repo_of default_branch (split (trim_set path (lit "/")) b'/')

pub parse_raw : (Text → Option Url) → Text → Text → Option Repo
unfolding cut_fragment path_of split_path
parse_raw parse default_branch raw =
    if is_empty raw
    then none
    else split_path default_branch (path_of parse (cut_fragment raw (index raw (lit "#"))))

unfoldable pub parse_url : (Text → Option Url) → Text → Option Text → Option Repo
unfolding parse_raw
parse_url parse default_branch none = none
parse_url parse default_branch (some url) = parse_raw parse default_branch (trim_space url)

-- `none` is `ok == false`.
unfoldable pub parse_git_hub_repo : (Text → Option Url) → Project → Option Repo
unfolding parse_url
parse_git_hub_repo parse project =
    if not (is_empty project.provider)
      && not (equal_fold (trim_space project.provider) (lit "github"))
    then none
    else parse_url parse project.default_branch project.repo_url

-- `manifestMaxBytes`
abbrev pub manifest_max_bytes : ℕ
manifest_max_bytes = 8 * 1024 * 1024

-- `threatManifestPaths`
abbrev pub threat_manifest_paths : List Text
threat_manifest_paths =
    lit "package.json"
    ∷ lit "package-lock.json"
    ∷ lit "go.mod"
    ∷ lit "requirements.txt"
    ∷ lit "Cargo.lock"
    ∷ lit "poetry.lock"
    ∷ lit "pom.xml"
    ∷ []

pub record Response : Type 0 where
  pub status : ℕ
  -- The whole body, or an error of reading it.
  pub body : Option Text

-- `http.NewRequestWithContext` fails, `client.Do` fails, or there is a response.
pub data Answer : Type 0 where
  bad_request no_response : Answer
  response : Response → Answer

pub data FetchError : Type 0 where
  no_manifest_source request_failed fetch_failed read_failed too_large http_error : FetchError

pub data Fetched : Type 0 where
  found : Text → Text → Fetched
  not_fetched : FetchError → Fetched

pub record Http : Type 0 where
  pub query_escape : Text → Text
  -- The endpoint and the token.
  pub get : Text → Text → Answer

abbrev pub endpoint : Http → Text → Repo → Text → Text
endpoint http api_base r mf =
    api_base
    ++ lit "/repos/"
    ++ r.owner
    ++ lit "/"
    ++ r.repo
    ++ lit "/contents/"
    ++ mf
    ++ lit "?ref="
    ++ http.query_escape r.branch

-- `readManifestBody` with the tests of the status and the body, then the rest of the loop.
pub read_body : Text → ℕ → Option Text → Fetched → Fetched
read_body mf status none rest = not_fetched read_failed
read_body mf status (some all_bytes) rest =
    let body = take (suc manifest_max_bytes) all_bytes in
    if ltb manifest_max_bytes (length body)
    then not_fetched too_large
    else if status == 404
    then rest
    else if leb 400 status
    then not_fetched http_error
    else if is_empty (trim_space body)
    then rest
    else found mf body

pub read_answer : Text → Answer → Fetched → Fetched
unfolding read_body
read_answer mf bad_request rest = not_fetched request_failed
read_answer mf no_response rest = not_fetched fetch_failed
read_answer mf (response r) rest = read_body mf r.status r.body rest

unfoldable pub fetch_first : Http → Text → Text → Repo → List Text → Fetched
unfolding read_answer
fetch_first http api_base token r [] = not_fetched no_manifest_source
fetch_first http api_base token r (mf ∷ mfs) =
    read_answer mf (http.get (endpoint http api_base r mf) token)
      (fetch_first http api_base token r mfs)

unfoldable pub fetch_repo : Http → Text → Text → Option Repo → Fetched
unfolding fetch_first
fetch_repo http api_base token none = not_fetched no_manifest_source
fetch_repo http api_base token (some r) =
    fetch_first http
      (trim_suffix (if is_empty api_base then lit "https://api.github.com" else api_base) (lit "/"))
      token r threat_manifest_paths

unfoldable pub fetch_project_manifest : (Text → Option Url) → Http → Text → Project → Text → Fetched
unfolding fetch_repo parse_git_hub_repo
fetch_project_manifest parse http api_base project token =
    fetch_repo http api_base token (parse_git_hub_repo parse project)
