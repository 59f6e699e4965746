-- ===== src/Scanner/Registry.antt =====
-- The registry and the packs of internal/scanner/registry.go. A scanner is its category and its target; the
-- order of the pack of all the git scanners, that of a Go map, is taken to be the source's.
pub mod Packs
use hen_kai_pan.Prelude.{Bool, true, false, List, [], ◌∷◌, Option, none, some, if◌then◌else◌}
use hen_kai_pan.Strings.{Text, lit, text_eq}
use hen_kai_pan.Maps.{Map, lookup}

pub record Entry : Type 0 where
  pub category : Text
  pub target_type : Text

git_entry : Text → Entry
git_entry category = record { category = category; target_type = lit "git" }

url_entry : Text → Entry
url_entry category = record { category = category; target_type = lit "url" }

-- `Registry`
unfoldable pub registry : Map Entry
unfolding git_entry url_entry
registry =
    (lit "semgrep", git_entry (lit "sast"))
    ∷ (lit "gosec", git_entry (lit "sast"))
    ∷ (lit "trivy", git_entry (lit "sca"))
    ∷ (lit "grype", git_entry (lit "sca"))
    ∷ (lit "osv-scanner", git_entry (lit "sca"))
    ∷ (lit "trufflehog", git_entry (lit "secrets"))
    ∷ (lit "gitleaks", git_entry (lit "secrets"))
    ∷ (lit "checkov", git_entry (lit "iac"))
    ∷ (lit "tfsec", git_entry (lit "iac"))
    ∷ (lit "kics", git_entry (lit "iac"))
    ∷ (lit "trivy-image", url_entry (lit "containers"))
    ∷ (lit "grype-image", url_entry (lit "containers"))
    ∷ (lit "nuclei", url_entry (lit "dast"))
    ∷ []

category_of : Option Entry → Option Text
category_of none = none
category_of (some e) = some e.category

unfoldable pub category_for : Text → Option Text
unfolding category_of registry lookup
category_for name = category_of (lookup name registry)

equal_categories : Option Text → Option Text → Bool
equal_categories none b = false
equal_categories (some a) none = false
equal_categories (some a) (some b) = text_eq a b

unfoldable pub same_category : Text → Text → Bool
unfolding equal_categories category_for
same_category a b = equal_categories (category_for a) (category_for b)

names_with : Text → Map Entry → List Text
names_with target [] = []
names_with target ((name, e) ∷ m) =
    let rest = names_with target m in if text_eq e.target_type target then name ∷ rest else rest

-- `GitScannerNames`
unfoldable pub git_scanner_names : List Text
unfolding names_with registry
git_scanner_names = names_with (lit "git") registry

-- `Packs`: the ids with their scanners.
unfoldable pub packs : Map (List Text)
unfolding git_scanner_names
packs =
    (lit "all", git_scanner_names)
    ∷ (lit "sast", lit "semgrep" ∷ lit "gosec" ∷ [])
    ∷ (lit "sca", lit "trivy" ∷ lit "grype" ∷ lit "osv-scanner" ∷ [])
    ∷ (lit "secrets", lit "trufflehog" ∷ lit "gitleaks" ∷ [])
    ∷ (lit "iac", lit "checkov" ∷ lit "tfsec" ∷ lit "kics" ∷ [])
    ∷ (lit "containers", lit "trivy-image" ∷ lit "grype-image" ∷ [])
    ∷ []

unfoldable pub resolve_pack : Text → Option (List Text)
unfolding packs lookup
resolve_pack id = lookup id packs
