-- ===== src/Secrets.antt =====
-- internal/secrets/secret.go: the stored secrets of the integrations. AES-GCM, the two encodings and the random
-- source are parameters; the package's key is an argument, as `SetKey` leaves it.
use hen_kai_pan.Prelude.{
  ℕ, true, false, [], ◌∷◌, ◌++◌, ◌==◌, Option, none, some, if◌then◌else◌, ltb, not, ◌≡◌, refl,
  arith, ◌⊎◌, inl, inr, length, take, drop, any, length-append, take-append, drop-append,
  Bool-cases, sym, ap, ◌∙◌,
}
use hen_kai_pan.Strings.{
  Text, lit, is_empty, trim_space, has_prefix, trim_prefix, is_space, strip_prefix?,
  trim_space_solid, any-IsSolid,
}

pub data SecretError : Type 0 where
  key_not_configured bad_hex_key bad_key_size cipher_failed random_failed bad_base64
        ciphertext_too_short not_authentic :
      SecretError

-- `cipher.AEAD`, as the two functions call it: `Seal` without its destination, `Open` fails with `none`.
pub record Aead : Type 0 where
  pub nonce_size : ℕ
  pub seal : Text → Text → Text
  pub unseal : Text → Text → Option Text

pub record Crypto : Type 0 where
  pub hex_decode : Text → Option Text
  -- `aes.NewCipher`, and `cipher.NewGCM` of its block.
  pub new_aead : Text → Option Aead
  pub encode : Text → Text
  pub decode : Text → Option Text

abbrev pub prefix : Text
prefix = lit "enc:v1:"

unfoldable pub set_key : Text → Text
unfolding trim_space
set_key key = trim_space key

is_empty-nil : (s : Text) → is_empty s ≡ true → s ≡ []
unfolding is_empty
is_empty-nil [] h = refl
is_empty-nil (c ∷ s) h = ground arith

module _ (crypto : Crypto) where
  made_aead : Option Aead → Aead ⊎ SecretError
  made_aead none = inr cipher_failed
  made_aead (some gcm) = inl gcm

  sized_aead : Option Text → Aead ⊎ SecretError
  unfolding made_aead
  sized_aead none = inr bad_hex_key
  sized_aead (some key) =
      if not (length key == 32) then inr bad_key_size else made_aead (crypto.new_aead key)

  unfoldable pub new_gcm : Text → Aead ⊎ SecretError
  unfolding sized_aead is_empty
  new_gcm secret_key =
      if is_empty secret_key
      then inr key_not_configured
      else sized_aead (crypto.hex_decode secret_key)

  seal_with : Text → Aead → Option Text → Text ⊎ SecretError
  seal_with plaintext gcm none = inr random_failed
  seal_with plaintext gcm (some nonce) =
      inl (prefix ++ crypto.encode (nonce ++ gcm.seal nonce plaintext))

  encrypt_with : (ℕ → Option Text) → Text → Aead ⊎ SecretError → Text ⊎ SecretError
  unfolding seal_with
  encrypt_with random plaintext (inr e) = inr e
  encrypt_with random plaintext (inl gcm) = seal_with plaintext gcm (random gcm.nonce_size)

  -- The key, what `rand.Reader` gives for a number of bytes, and the plaintext.
  unfoldable pub encrypt : Text → (ℕ → Option Text) → Text → Text ⊎ SecretError
  unfolding encrypt_with trim_space is_empty
  encrypt secret_key random plaintext =
      let text = trim_space plaintext in
      if is_empty text then inl [] else encrypt_with random text (new_gcm secret_key)

  opened : Option Text → Text ⊎ SecretError
  opened none = inr not_authentic
  opened (some plaintext) = inl plaintext

  open_raw : Aead → Option Text → Text ⊎ SecretError
  unfolding opened
  open_raw gcm none = inr bad_base64
  open_raw gcm (some raw) =
      if ltb (length raw) gcm.nonce_size
      then inr ciphertext_too_short
      else opened (gcm.unseal (take gcm.nonce_size raw) (drop gcm.nonce_size raw))

  decrypt_with : Text → Aead ⊎ SecretError → Text ⊎ SecretError
  unfolding open_raw trim_prefix
  decrypt_with value (inr e) = inr e
  decrypt_with value (inl gcm) = open_raw gcm (crypto.decode (trim_prefix value prefix))

  unfoldable pub decrypt : Text → Text → Text ⊎ SecretError
  unfolding decrypt_with trim_space is_empty has_prefix
  decrypt secret_key value =
      let text = trim_space value in
      if is_empty text
      then inl []
      else if not (has_prefix text prefix)
      then inl text
      else decrypt_with text (new_gcm secret_key)

  -- What is relied on: base64 is read back and holds no white space, an authenticated text is opened with its
  -- nonce, and the random source gives as many bytes as it is asked for.
  pub record IsCrypto (random : ℕ → Option Text) : Type 0 where
    pub reads : (b : Text) → crypto.decode (crypto.encode b) ≡ some b
    pub unspaced : (b : Text) → any is_space (crypto.encode b) ≡ false
    pub opens :
        (key : Text) (gcm : Aead)
        → crypto.new_aead key ≡ some gcm
        → (n p : Text) → gcm.unseal n (gcm.seal n p) ≡ some p
    pub fills : (n : ℕ) → (b : Text) × (random n ≡ some b) × (length b ≡ n)

  made-new : (o : Option Aead) (gcm : Aead) → made_aead o ≡ inl gcm → o ≡ some gcm
  unfolding made_aead
  made-new none gcm h = ground arith
  made-new (some a) gcm h = cc

  sized-new :
      (o : Option Text) (gcm : Aead)
      → sized_aead o ≡ inl gcm
      → (key : Text) × (crypto.new_aead key ≡ some gcm)
  unfolding sized_aead
  sized-new none gcm h = ground arith
  sized-new (some key) gcm h = (key, made-new (crypto.new_aead key) gcm (ground arith))

  -- A cipher that is made comes from a key.
  aead-new :
      (secret_key : Text) (gcm : Aead)
      → new_gcm secret_key ≡ inl gcm
      → (key : Text) × (crypto.new_aead key ≡ some gcm)
  unfolding new_gcm
  aead-new secret_key gcm h = sized-new (crypto.hex_decode secret_key) gcm (ground arith)

  open_raw-seal :
      (gcm : Aead) (n p : Text)
      → length n ≡ gcm.nonce_size
      → gcm.unseal n (gcm.seal n p) ≡ some p
      → open_raw gcm (some (n ++ gcm.seal n p)) ≡ inl p
  unfolding open_raw opened
  open_raw-seal gcm n p e o =
      let long : ltb (length (n ++ gcm.seal n p)) gcm.nonce_size ≡ false =
        rw (length-append n (gcm.seal n p)) (ground arith) in
      rw (long, sym e, take-append n (gcm.seal n p), drop-append n (gcm.seal n p), o) refl

  decrypt-sealed :
      (secret_key raw : Text) (gcm : Aead)
      → any is_space (crypto.encode raw) ≡ false
      → crypto.decode (crypto.encode raw) ≡ some raw
      → new_gcm secret_key ≡ inl gcm
      → decrypt secret_key (prefix ++ crypto.encode raw) ≡ open_raw gcm (some raw)
  unfolding decrypt decrypt_with is_empty has_prefix trim_prefix strip_prefix?
  decrypt-sealed secret_key raw gcm u d h =
      rw
        (
          trim_space_solid (prefix ++ crypto.encode raw)
              (any-IsSolid (prefix ++ crypto.encode raw) u),
          h,
          d,
        )
        refl

  -- What was encrypted is decrypted by the same key, with the white space around it removed.
  pub decrypt-encrypt :
      (secret_key plaintext : Text) (random : ℕ → Option Text) (gcm : Aead)
      → IsCrypto random
      → new_gcm secret_key ≡ inl gcm
      → (s : Text) × (encrypt secret_key random plaintext ≡ inl s)
        × (decrypt secret_key s ≡ inl (trim_space plaintext))
  unfolding encrypt encrypt_with seal_with decrypt is_empty trim_space
  decrypt-encrypt secret_key plaintext random gcm c h =
      let key = aead-new secret_key gcm h in
      let n = c.fills gcm.nonce_size in
      let text = trim_space plaintext in
      let raw = n.0 ++ gcm.seal n.0 text in
      elim (Bool-cases (is_empty text)) [
        | inl e ↦ ([], rw e refl, ap inl (sym (is_empty-nil text e)))
        | inr e ↦ (
          prefix ++ crypto.encode raw,
          rw (e, h, n.1) refl,
          decrypt-sealed secret_key raw gcm (c.unspaced raw) (c.reads raw) h
              ∙ open_raw-seal gcm n.0 text n.2 (c.opens key.0 gcm key.1 n.0 text),
        )
      ]
