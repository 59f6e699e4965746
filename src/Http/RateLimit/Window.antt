-- ===== src/Http/RateLimit/Window.antt =====
-- The window lets no more requests through than its limit.
use hen_kai_pan.Prelude.{
  ℕ, suc, ◌+◌, ◌/◌, ◌≤◌, max, true, List, [], ◌∷◌, Option, none, some, ◌≡◌, arith, All,
  if◌then◌else◌,
}
use hen_kai_pan.Strings.{Text}
use hen_kai_pan.Http.RateLimit.{check_rate_limit, window_key, judge, rate_limit_window}

module _ {S : Type 0} (incr : S → Text → Option ℕ × S) (itoa : ℕ → Text) where
  -- How many requests of a client are allowed, made at these times, where an error blocks.
  unfoldable pub admitted : Text → ℕ → List ℕ → S → ℕ
  unfolding check_rate_limit
  admitted key limit [] s = 0
  admitted key limit (now ∷ times) s =
      let (v, s') = check_rate_limit incr itoa true now key limit s in
      let rest = admitted key limit times s' in if v.allowed then suc rest else rest

-- The documented behaviour of INCR on a key, where `value` is the number stored there: an answer is that
-- number raised by one, which is then stored; a failed call lowers nothing.
pub data CountsUp {S : Type 0} (value : S → ℕ) (s : S) : Option ℕ × S → Type 0 where
  counted : {s' : S} → value s' ≡ suc (value s) → CountsUp value s (some (suc (value s)), s')
  not_counted : {s' : S} → value s ≤ value s' → CountsUp value s (none, s')

-- One request: it is allowed only below the limit, and then it is counted.
judge_lem :
    {S : Type 0} (value : S → ℕ) (s : S) (r : Option ℕ × S) (now limit rest : ℕ)
    → CountsUp value s r
    → rest + value r.1 ≤ max limit (value r.1)
    → (if (judge true now limit r.0).allowed then suc rest else rest) + value s
      ≤ max limit (value s)
unfolding judge
judge_lem value s (some c, s') now limit rest (counted e) h = ground arith
judge_lem value s (none, s') now limit rest (not_counted e) h = ground arith

-- If INCR behaves as documented on the key of a window, then of however many requests a client makes in
-- that window, and whether or not Redis fails, at most as many are allowed as the limit leaves above what
-- the window has already counted.
pub admitted_within :
    {S : Type 0} (incr : S → Text → Option ℕ × S) (itoa : ℕ → Text) (value : S → ℕ) (key : Text)
    (limit window : ℕ)
    → ((s : S) (now : ℕ)
        → now / rate_limit_window ≡ window
        → CountsUp value s (incr s (window_key incr itoa now key)))
    → (times : List ℕ) (s : S) → All (λ now. now / rate_limit_window ≡ window) times
    → admitted incr itoa key limit times s + value s ≤ max limit (value s)
unfolding admitted check_rate_limit
admitted_within incr itoa value key limit window h [] s a = ground arith
admitted_within incr itoa value key limit window h (now ∷ times) s (w, a) =
    let r = incr s (window_key incr itoa now key) in
    judge_lem value s r now limit (admitted incr itoa key limit times r.1) (h s now w)
      (admitted_within incr itoa value key limit window h times r.1 a)
