-- ===== src/Threats/Ecosystem.antt =====
-- internal/threats/ecosystem.go
use hen_kai_pan.Prelude.{[], if◌then◌else◌}
use hen_kai_pan.Strings.{Text, lit, text_eq}

-- A missing key of the map reads as the empty string.
unfoldable pub osv_ecosystem : Text → Text
osv_ecosystem ecosystem =
    if text_eq ecosystem (lit "npm")
    then lit "npm"
    else if text_eq ecosystem (lit "go")
    then lit "Go"
    else if text_eq ecosystem (lit "pip")
    then lit "PyPI"
    else if text_eq ecosystem (lit "cargo")
    then lit "crates.io"
    else []
