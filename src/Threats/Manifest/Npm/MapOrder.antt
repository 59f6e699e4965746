-- ===== src/Threats/Manifest/Npm/MapOrder.antt =====
-- The rows of package.json do not depend, but for their order, on how Go iterates over its maps.
use mathlib.Core.List.{Permᴰ}
use mathlib.Core.List.Permᴰ
use hen_kai_pan.Prelude.{List, Option, none, some, refl}
use hen_kai_pan.Strings.{Text}
use hen_kai_pan.Threats.Records.{Dependency}
use hen_kai_pan.Threats.Manifest.Npm.{cons_resolved, scope_rows, document_rows, PackageJson}

cons_resolved-perm :
    (file name : Text) (o : Option Text) {ds es : List Dependency}
    → Permᴰ ds es
    → Permᴰ (cons_resolved file name o ds) (cons_resolved file name o es)
unfolding cons_resolved
cons_resolved-perm file name none p = p
cons_resolved-perm file name (some v) p = Permᴰ.cons refl p

cons_resolved-swap :
    (file name name' : Text) (o o' : Option Text) (ds : List Dependency)
    → Permᴰ
        (cons_resolved file name o (cons_resolved file name' o' ds))
        (cons_resolved file name' o' (cons_resolved file name o ds))
unfolding cons_resolved
cons_resolved-swap file name name' none o' ds = Permᴰ.refl _
cons_resolved-swap file name name' (some v) none ds = Permᴰ.refl _
cons_resolved-swap file name name' (some v) (some w) ds = Permᴰ.swap refl refl

pub scope_rows-perm :
    (file : Text) {xs ys : List (Text × Text)}
    → Permᴰ xs ys
    → Permᴰ (scope_rows file xs) (scope_rows file ys)
unfolding scope_rows
scope_rows-perm file Permᴰ.nil = Permᴰ.nil
scope_rows-perm file (Permᴰ.cons {a = a} e p) =
    rw (← e) (cons_resolved-perm file a.0 _ (scope_rows-perm file p))
scope_rows-perm file (Permᴰ.swap {a = a} {b = b} e f) =
    rw (← e, ← f) (cons_resolved-swap file a.0 b.0 _ _ _)
scope_rows-perm file (Permᴰ.trans p q) =
    Permᴰ.trans (scope_rows-perm file p) (scope_rows-perm file q)

-- The two maps of the documents have the same entries.
pub record SameDocument (p q : PackageJson) : Type 0 where
  pub dependencies : Permᴰ p.dependencies q.dependencies
  pub dev_dependencies : Permᴰ p.dev_dependencies q.dev_dependencies

pub document_rows-perm :
    (file : Text) {p q : PackageJson}
    → SameDocument p q
    → Permᴰ (document_rows file p) (document_rows file q)
unfolding document_rows
document_rows-perm file s =
    Permᴰ.trans (Permᴰ.append_right _ (scope_rows-perm file s.dependencies))
      (Permᴰ.append_left _ (scope_rows-perm file s.dev_dependencies))
