-- ===== src/Http/RateLimit.antt =====
-- internal/middleware/ratelimit.go: the fixed window that counts the requests of a client in Redis. Redis,
-- `net.ParseIP`, the CIDR test and `strconv` are parameters.
pub mod Window
pub mod Proxies
use hen_kai_pan.Prelude.{
  ℕ, suc, ◌+◌, ◌-◌, ◌*◌, ◌/◌, Bool, true, false, List, [], ◌∷◌, ◌++◌, Option, none, some,
  if◌then◌else◌, ltb, ◌||◌, ◌&&◌, not, any,
}
use hen_kai_pan.Strings.{Text, lit, text_eq, is_empty, trim_space, cut, last_index_byte}
use hen_kai_pan.Prelude.{take}

abbrev pub rate_limit_window : ℕ
rate_limit_window = 60

abbrev pub rate_limit_general : ℕ
rate_limit_general = 300

abbrev pub rate_limit_auth : ℕ
rate_limit_auth = 20

abbrev pub rate_limit_heavy : ℕ
rate_limit_heavy = 120

-- allowed, remaining, resetTime
pub record Verdict : Type 0 where
  pub allowed : Bool
  pub remaining : ℕ
  pub reset_time : ℕ

-- On the answer of INCR, `none` for an error of the pipeline.
pub judge : Bool → ℕ → ℕ → Option ℕ → Verdict
judge fail_closed now limit none =
    if fail_closed
    then record { allowed = false; remaining = 0; reset_time = now + rate_limit_window }
    else record { allowed = true; remaining = limit; reset_time = now + rate_limit_window }
judge fail_closed now limit (some count) =
    if ltb limit count
    then record {
      allowed = false;
      remaining = 0;
      reset_time = (now / rate_limit_window + 1) * rate_limit_window;
    }
    else record {
      allowed = true;
      remaining = limit - count;
      reset_time = (now / rate_limit_window + 1) * rate_limit_window;
    }

module _ {S : Type 0} (incr : S → Text → Option ℕ × S) (itoa : ℕ → Text) where
  pub window_key : ℕ → Text → Text
  window_key now key = key ++ lit ":" ++ itoa (now / rate_limit_window)

  unfoldable pub check_rate_limit : Bool → ℕ → Text → ℕ → S → Verdict × S
  unfolding judge window_key
  check_rate_limit fail_closed now key limit s =
      let (count, s') = incr s (window_key now key) in (judge fail_closed now limit count, s')

unfoldable pub is_auth_endpoint : Text → Bool
is_auth_endpoint path =
    text_eq path (lit "/api/auth/login") || text_eq path (lit "/api/auth/logout")

unfoldable pub is_heavy_endpoint : Text → Bool
is_heavy_endpoint path =
    text_eq path (lit "/api/findings/export")
    || text_eq path (lit "/api/metrics/trends")
    || text_eq path (lit "/api/metrics/risk")

-- The endpoints that are never limited.
is_exempt : Text → Bool
is_exempt path =
    text_eq path (lit "/api/health")
    || text_eq path (lit "/api/version")
    || text_eq path (lit "/metrics")

-- The limit and the key of a request.
bucket_of : Text → Text → Text → ℕ × Text
bucket_of path user_id ip =
    if is_auth_endpoint path
    then (rate_limit_auth, lit "ratelimit:auth:" ++ ip)
    else if is_heavy_endpoint path
    then (
      rate_limit_heavy,
      lit "ratelimit:heavy:" ++ (if not (is_empty user_id) then user_id else ip),
    )
    else (rate_limit_general, lit "ratelimit:general:" ++ ip)

-- What the middleware does with a request: pass it on, or answer 429.
pub data Decision : Type 0 where
  passed : Decision
  too_many : ℕ → Decision

decide : Verdict → Decision
decide v = if v.allowed then passed else too_many v.reset_time

or_unknown : Text → Text
or_unknown ip = if is_empty ip then lit "unknown" else ip

module _ {S : Type 0} (incr : S → Text → Option ℕ × S) (itoa : ℕ → Text) where
  unfoldable pub rate_limiter : Bool → ℕ → Text → Text → Text → S → Decision × S
  unfolding is_auth_endpoint is_heavy_endpoint is_exempt bucket_of decide or_unknown
      check_rate_limit
  rate_limiter fail_closed now path user_id client_ip s =
      let (limit, key) = bucket_of path user_id (or_unknown client_ip) in
      let (verdict, s') = check_rate_limit incr itoa fail_closed now key limit s in
      if is_exempt path then (passed, s) else (decide verdict, s')

-- The part of an address before the last colon.
upto : Option ℕ → Text → Text
upto none addr = addr
upto (some i) addr = take i addr

unfoldable pub extract_remote_addr : Text → Text
unfolding upto
extract_remote_addr addr = upto (last_index_byte addr b':') addr

-- A request's address and headers, an absent header being empty.
pub record Request : Type 0 where
  pub remote_addr : Text
  pub forwarded_for : Text
  pub real_ip : Text

-- What the proxy headers say, and the direct address otherwise.
from_headers : Request → Option Text → Text
from_headers r direct =
    let (first, rest, found) = cut r.forwarded_for (lit ",") in
    if not (is_empty r.forwarded_for)
    then (if found then trim_space first else trim_space r.forwarded_for)
    else if not (is_empty r.real_ip)
    then trim_space r.real_ip
    else elim direct [ none ↦ r.remote_addr | some ip ↦ ip ]

-- `parse_ip` is `net.ParseIP` with the printed form of its answer; each proxy is a CIDR's test.
no_proxies : List (Text → Bool) → Bool
no_proxies [] = true
no_proxies (c ∷ cs) = false

resolve_ip : List (Text → Bool) → Request → Option Text → Text
resolve_ip proxies r none = from_headers r none
resolve_ip proxies r (some ip) =
    if not (no_proxies proxies) && not (any (λ cidr. cidr ip) proxies)
    then ip
    else from_headers r (some ip)

unfoldable pub client_ip : (Text → Option Text) → List (Text → Bool) → Request → Text
unfolding resolve_ip from_headers extract_remote_addr no_proxies
client_ip parse_ip proxies r = resolve_ip proxies r (parse_ip (extract_remote_addr r.remote_addr))
