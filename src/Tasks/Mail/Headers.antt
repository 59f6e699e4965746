-- ===== src/Tasks/Mail/Headers.antt =====
-- The headers of an email.
use hen_kai_pan.Prelude.{Bool, false, [], ◌∷◌, ◌≡◌, refl, arith, any, ◌==◌, ◌||◌}
use hen_kai_pan.Strings.{Text, any-trim_space}
use hen_kai_pan.Tasks.Mail.{replace_byte, sanitize_email_header}

-- A carriage return or a line feed.
abbrev pub breaks : Text → Bool
breaks s = any (λ c. c == b'\r' || c == b'\n') s

replaced-unbroken : (s : Text) → breaks (replace_byte b'\n' (replace_byte b'\r' s)) ≡ false
unfolding replace_byte
replaced-unbroken [] = refl
replaced-unbroken (c ∷ s) = ground (arith, replaced-unbroken s)

-- Whatever the subject, its header holds no line break: it adds no header, and does not end the headers.
pub sanitize_email_header_unbroken : (value : Text) → breaks (sanitize_email_header value) ≡ false
unfolding sanitize_email_header
sanitize_email_header_unbroken value =
    any-trim_space _ (replace_byte b'\n' (replace_byte b'\r' value)) (replaced-unbroken value)
