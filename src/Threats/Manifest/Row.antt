-- ===== src/Threats/Manifest/Row.antt =====
-- What a parser promises of a row, and of a result.
use mathlib.Core.Path.{subst}
use hen_kai_pan.Prelude.{Bool, true, false, List, All, ◌≡◌, refl, arith, ◌||◌, if◌then◌else◌}
use hen_kai_pan.Strings.{Text, is_empty}
use hen_kai_pan.Threats.Records.{Dependency}
use hen_kai_pan.Threats.Manifest.Result.{Result, ManifestError, ok, err, ◌>>=◌, ◌>>◌}

-- A row with a resolved version, of a known ecosystem, that names its source.
pub record IsRow (eco file : Text) (d : Dependency) : Type 0 where
  pub ecosystem : d.ecosystem ≡ eco
  pub source_file : d.source_file ≡ file
  pub version : is_empty d.version ≡ false

-- `P` holds of the value, if there is one.
pub data Yields {A : Type 0} (P : A → Type 0) : Result A → Type 0 where
  yields : {a : A} → P a → Yields P (ok a)
  fails : {e : ManifestError} → Yields P (err e)

ok-inj : {A : Type 0} (a b : A) → ok a ≡ ok b → a ≡ b
ok-inj a b e = cc

pub Yields-bind :
    {A B : Type 0} {P : A → Type 0} {Q : B → Type 0} (m : Result A) (f : A → Result B)
    → Yields P m
    → ((a : A) → P a → Yields Q (f a))
    → Yields Q (m >>= f)
Yields-bind (ok a) f (yields h) k = k a h
Yields-bind (err e) f fails k = fails

pub Yields-if :
    {A : Type 0} {P : A → Type 0} (b : Bool) (m n : Result A)
    → (b ≡ true → Yields P m)
    → (b ≡ false → Yields P n)
    → Yields P (if b then m else n)
Yields-if true m n h k = h refl
Yields-if false m n h k = k refl

-- Of a disjunction that fails.
pub or_false_right : (a b : Bool) → (a || b) ≡ false → b ≡ false
or_false_right a b h = ground arith

pub Yields-reject :
    {A : Type 0} {P : A → Type 0} (m : Result (Unit {0})) (k : Result A)
    → Yields P k
    → Yields P (m >> k)
Yields-reject (ok u) k h = h
Yields-reject (err e) k h = fails

-- What a successful parse returns has the property.
pub Yields-ok : {A : Type 0} {P : A → Type 0} {r : Result A} {a : A} → Yields P r → r ≡ ok a → P a
Yields-ok {P} {a} (yields {a = b} h) e = subst P (ok-inj b a e) h
Yields-ok fails e = cc

-- Every row of a successful parse.
abbrev pub AllRows : Text → Text → List Dependency → Type 0
AllRows eco file ds = All (IsRow eco file) ds
