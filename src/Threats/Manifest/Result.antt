-- ===== src/Threats/Manifest/Result.antt =====
-- The errors of the manifest parsers, and the buffer that they scan with.
use hen_kai_pan.Prelude.{ℕ, ◌*◌, Bool, true, false}

pub data ManifestError : Type 0 where
  empty_manifest unsupported bad_json bad_require line_too_long unclosed_require missing_module :
      ManifestError
  incomplete_package bad_value no_packages : ManifestError

pub data Result (A : Type 0) : Type 0 where
  ok : A → Result A
  err : ManifestError → Result A

infixl 5 ◌>>=◌
abbrev pub ◌>>=◌ : {A B : Type 0} → Result A → (A → Result B) → Result B
ok a >>= f = f a
err e >>= f = err e

abbrev pub reject_if : Bool → ManifestError → Result (Unit {0})
reject_if true e = err e
reject_if false e = ok tt

infixl 5 ◌>>◌
abbrev pub ◌>>◌ : {B : Type 0} → Result (Unit {0}) → Result B → Result B
m >> k = m >>= λ _. k

-- The largest token of `sc.Buffer(make([]byte, 64*1024), 1024*1024)`
abbrev pub max_token : ℕ
max_token = 1024 * 1024
