-- ===== src/Webhook/Signature.antt =====
-- internal/webhook/signature.go: the signature of a delivery. The HMAC with its encoding and the two sides of
-- RFC 3339 are parameters; a time is a number of seconds.
use hen_kai_pan.Prelude.{
  ℕ, ◌+◌, ◌*◌, ◌≤◌, false, ◌++◌, Option, none, some, if◌then◌else◌, ltb, not, ◌≡◌, refl, arith,
}
use hen_kai_pan.Strings.{Text, lit, text_eq, text_eq_iff, text_eq_refl, is_empty}

-- `MaxAge`
abbrev pub max_age : ℕ
max_age = 5 * 60

pub data VerifyError : Type 0 where
  missing_signature missing_timestamp bad_timestamp expired_timestamp invalid_signature :
      VerifyError

pub record Codec : Type 0 where
  -- `base64.StdEncoding` of the HMAC-SHA256 of a message under a secret.
  pub mac : Text → Text → Text
  pub format : ℕ → Text
  pub parse : Text → Option ℕ

module _ (codec : Codec) where
  unfoldable pub sign_payload : Text → Text → ℕ → Text
  sign_payload payload secret timestamp =
      codec.mac secret (codec.format timestamp ++ lit "." ++ payload)

  check_signed : Text → Text → Text → ℕ → Option ℕ → Option VerifyError
  unfolding sign_payload
  check_signed signature body secret now none = some bad_timestamp
  check_signed signature body secret now (some timestamp) =
      if ltb (timestamp + max_age) now
      then some expired_timestamp
      else if not (text_eq signature (sign_payload body secret timestamp))
      then some invalid_signature
      else none

  -- The two headers, the body, the secret and the time; `none` is a nil error.
  unfoldable pub verify_signature : Text → Text → Text → Text → ℕ → Option VerifyError
  unfolding check_signed is_empty
  verify_signature signature timestamp_str body secret now =
      if is_empty signature
      then some missing_signature
      else if is_empty timestamp_str
      then some missing_timestamp
      else check_signed signature body secret now (codec.parse timestamp_str)

  -- What is relied on: no signature and no time is written as the empty string, and a time that is written
  -- is read back.
  pub record IsCodec : Type 0 where
    pub signs : (secret message : Text) → is_empty (codec.mac secret message) ≡ false
    pub writes : (t : ℕ) → is_empty (codec.format t) ≡ false
    pub reads : (t : ℕ) → codec.parse (codec.format t) ≡ some t

  -- A signed delivery is accepted for five minutes.
  pub verify_signature-sign_payload :
      (payload secret : Text) (timestamp now : ℕ)
      → IsCodec
      → now ≤ timestamp + max_age
      → verify_signature
          (sign_payload payload secret timestamp)
          (codec.format timestamp)
          payload
          secret
          now
        ≡ none
  unfolding verify_signature check_signed sign_payload
  verify_signature-sign_payload payload secret timestamp now c le =
      let early : ltb (timestamp + max_age) now ≡ false = ground arith in
      let message = codec.format timestamp ++ lit "." ++ payload in
      rw
        (
          c.signs secret message,
          c.writes timestamp,
          c.reads timestamp,
          early,
          text_eq_refl (codec.mac secret message),
        )
        refl

  checked_sound :
      (signature body secret : Text) (now : ℕ) (o : Option ℕ)
      → check_signed signature body secret now o ≡ none
      → (t : ℕ) × (o ≡ some t) × (now ≤ t + max_age) × (signature ≡ sign_payload body secret t)
  unfolding check_signed
  checked_sound signature body secret now none h = cc
  checked_sound signature body secret now (some t) h =
      (t, refl, ground arith, (text_eq_iff signature (sign_payload body secret t)).0 (ground arith))

  -- A delivery that is accepted carries the signature of its own body and time under the secret, and is not
  -- more than five minutes old.
  pub verify_signature_sound :
      (signature timestamp_str body secret : Text) (now : ℕ)
      → verify_signature signature timestamp_str body secret now ≡ none
      → (t : ℕ) × (codec.parse timestamp_str ≡ some t)
        × (now ≤ t + max_age)
        × (signature ≡ sign_payload body secret t)
  unfolding verify_signature
  verify_signature_sound signature timestamp_str body secret now h =
      checked_sound signature body secret now (codec.parse timestamp_str) (ground arith)
