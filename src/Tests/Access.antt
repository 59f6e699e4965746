-- ===== src/Tests/Access.antt =====
-- A secret that is stored and read back, and a viewer who asks for a scan.
use hen_kai_pan.Prelude.{
  ℕ, zero, suc, ◌+◌, ◌-◌, Bool, true, false, [], ◌∷◌, Option, none, some, ◌≡◌, refl, sym, ap, ◌⊎◌,
  inl, replicate, length, any, if◌then◌else◌, arith,
}
use hen_kai_pan.Strings.{Text, lit, is_empty, trim_space, text_eq, is_space, split}
use hen_kai_pan.Secrets.{Crypto, Aead, IsCrypto, encrypt, decrypt, new_gcm, decrypt-encrypt}
use hen_kai_pan.Http.Ownership.{
  Claims, Kind, kind_of, extract_resource_id, require_ownership, require_ownership_sound, served,
  check_failed, has_capability,
}

-- A byte is written as the one 64 after it, and an authenticated text has a tag in front.
abbrev write : Text → Text
write [] = []
write (c ∷ s) = (64 + c) ∷ write s

abbrev read : Text → Text
read [] = []
read (c ∷ s) = (c - 64) ∷ read s

abbrev untag : Text → Option Text
untag [] = none
untag (c ∷ s) = some s

abbrev gcm : Aead
gcm = record { nonce_size = 12; seal = λ n p. 1 ∷ p; unseal = λ n s. untag s }

abbrev crypto : Crypto
crypto = record {
  hex_decode = λ s. some s;
  new_aead = λ key. some gcm;
  encode = write;
  decode = λ s. some (read s);
}

abbrev random : ℕ → Option Text
random n = some (replicate n 7)

read-write : (s : Text) → read (write s) ≡ s
read-write [] = refl
read-write (c ∷ s) = rw (read-write s) (ap (λ d. d ∷ s) (omega arith))

write_unspaced : (s : Text) → any is_space (write s) ≡ false
unfolding is_space
write_unspaced [] = refl
write_unspaced (c ∷ s) = ground (arith, write_unspaced s)

length-sevens : (n : ℕ) → length {A = ℕ} (replicate n 7) ≡ n
length-sevens zero = refl
length-sevens (suc n) = omega (arith, length-sevens n)

-- What a cipher makes of what it sealed.
abbrev opened_by : Text → Text → Option Aead → Option Text
opened_by n p none = some p
opened_by n p (some g) = g.unseal n (g.seal n p)

gcm-unseal :
    (key : Text) (g : Aead) → some gcm ≡ some g → (n p : Text) → g.unseal n (g.seal n p) ≡ some p
gcm-unseal key g h n p = sym (ap (opened_by n p) h)

crypto-IsCrypto : IsCrypto crypto random
crypto-IsCrypto = record {
  reads = λ b. ap some (read-write b);
  unspaced = write_unspaced;
  opens = gcm-unseal;
  fills = λ n. (replicate n 7, refl, length-sevens n);
}

abbrev key : Text
key = lit "0123456789abcdef0123456789abcdef"

key_good : new_gcm crypto key ≡ inl gcm
unfolding new_gcm is_empty
key_good = refl

decrypt-encrypt_example :
    (s : Text) × (encrypt crypto key random (lit " token ") ≡ inl s)
    × (decrypt crypto key s ≡ inl (trim_space (lit " token ")))
decrypt-encrypt_example =
    decrypt-encrypt crypto key (lit " token ") random gcm crypto-IsCrypto key_good

abbrev viewer : Claims
viewer = record { role = lit "viewer"; user_id = lit "u1" }

abbrev check : Kind → Text → Text → Option Bool
check kind user id = if text_eq id (lit "s1") then some true else none

served_s1 : require_ownership check (lit "scan") (some viewer) (lit "/api/scans/s1") ≡ served
unfolding require_ownership has_capability extract_resource_id kind_of split text_eq is_empty
served_s1 = refl

-- A failed query is an error, not an access.
failed_s2 : require_ownership check (lit "scan") (some viewer) (lit "/api/scans/s2") ≡ check_failed
unfolding require_ownership has_capability extract_resource_id kind_of split text_eq is_empty
failed_s2 = refl

require_ownership_sound_example :
    (claims : Claims) × (some viewer ≡ some claims)
    × ((claims.role ≡ lit "admin")
        ⊎ ((kind : Kind) × (kind_of (lit "scan") ≡ some kind)
            × (is_empty (extract_resource_id (lit "/api/scans/s1") (lit "scan")) ≡ false)
            × (check kind claims.user_id (extract_resource_id (lit "/api/scans/s1") (lit "scan"))
                ≡ some true)))
require_ownership_sound_example =
    require_ownership_sound check (lit "scan") (some viewer) (lit "/api/scans/s1") served_s1
