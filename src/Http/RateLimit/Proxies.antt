-- ===== src/Http/RateLimit/Proxies.antt =====
-- What the configured proxies are worth for a client on IPv6.
use hen_kai_pan.Prelude.{◌∷◌}
use hen_kai_pan.Strings.{Text}
use hen_kai_pan.Http.RateLimit.{Request}

abbrev pub from_bracketed : Text → Text → Text → Request
from_bracketed s forwarded real = record {
  remote_addr = b'[' ∷ s;
  forwarded_for = forwarded;
  real_ip = real;
}
