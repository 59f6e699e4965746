-- ===== src/Scanner.antt =====
-- internal/scanner: the parsers of the scanners' outputs. A JSON document is modelled from where it is
-- decoded; what `json.Unmarshal` and `json.Marshal` answer is a parameter of each parser.
pub mod Common
pub mod Severities
pub mod Sarif
pub mod Grype
pub mod OsvScanner
pub mod Secrets
pub mod Checkov
pub mod Kics
pub mod Nuclei
pub mod Snippet
pub mod Registry
