-- ===== src/Threats/Manifest/Sort.antt =====
-- The final `sort.Slice` of `ParseManifest`, by name and then by version. It is written as an insertion
-- sort: rows that tie are equal rows there, so every sort gives the same list.
pub mod Laws
use hen_kai_pan.Prelude.{Bool, List, [], ◌∷◌, not, if◌then◌else◌}
use hen_kai_pan.Strings.{Text, text_eq, text_lt}
use hen_kai_pan.Threats.Records.{Dependency}

-- The comparison that `sort.Slice` is given.
unfoldable pub row_less : Dependency → Dependency → Bool
row_less a b =
    if not (text_eq a.name b.name) then text_lt a.name b.name else text_lt a.version b.version

unfoldable pub insert_row : Dependency → List Dependency → List Dependency
insert_row d [] = d ∷ []
insert_row d (e ∷ es) = if row_less e d then e ∷ insert_row d es else d ∷ e ∷ es

unfoldable pub sort_rows : List Dependency → List Dependency
unfolding insert_row row_less
sort_rows [] = []
sort_rows (d ∷ ds) = insert_row d (sort_rows ds)
