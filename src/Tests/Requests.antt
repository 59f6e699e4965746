-- ===== src/Tests/Requests.antt =====
-- Requests with a page, and requests that are counted.
use hen_kai_pan.Prelude.{
  ℕ, suc, ◌+◌, ◌≤◌, max, Bool, false, [], ◌∷◌, ◌≡◌, refl, Option, none, some, if◌then◌else◌, ◌==◌,
}
use hen_kai_pan.Strings.{Text, last_index_byte, lit, cut, trim_space}
use hen_kai_pan.Http.RateLimit.{Request, client_ip}
use hen_kai_pan.Http.RateLimit.Window.{admitted, admitted_within, counted}

-- A Redis that holds one counter.
abbrev incr : ℕ → Text → Option ℕ × ℕ
incr s key = (some (suc s), suc s)

abbrev itoa : ℕ → Text
itoa n = lit "0"

abbrev value : ℕ → ℕ
value s = s

admitted_within_example :
    admitted incr itoa (lit "k") 2 (0 ∷ 10 ∷ 59 ∷ []) 0 + value 0 ≤ max 2 (value 0)
admitted_within_example =
    admitted_within incr itoa value (lit "k") 2 0 (λ s now w. counted refl) (0 ∷ 10 ∷ 59 ∷ []) 0
      (refl, (refl, (refl, tt)))

-- No address in brackets parses.
abbrev parse_ip : Text → Option Text
parse_ip [] = none
parse_ip (c ∷ s) = if c == b'[' then none else some (c ∷ s)

abbrev in_proxy : Text → Bool
in_proxy ip = false

abbrev spoofed : Request
spoofed = record {
  remote_addr = lit "[2001:db8::7]:443";
  forwarded_for = lit "10.0.0.1";
  real_ip = [];
}

-- The address that the client claims is taken.
claimed : client_ip parse_ip (in_proxy ∷ []) spoofed ≡ lit "10.0.0.1"
unfolding client_ip last_index_byte cut trim_space
claimed = refl
