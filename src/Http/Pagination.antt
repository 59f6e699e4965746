-- ===== src/Http/Pagination.antt =====
-- internal/pagination/pagination.go. An `int` has 64 bits.
use hen_kai_pan.Prelude.{
  ℕ, ◌*◌, ◌^◌, ◌≤◌, ◌<◌, false, ◌||◌, if◌then◌else◌, ◌≡◌, refl, arith, suc, zero,
}
use hen_kai_pan.Prelude.Int.{ℤ, pos, negsuc, lt_int, mul_int, mul_int_small}
use hen_kai_pan.Strings.{Text, atoi}

pub record Params : Type 0 where
  pub page : ℤ
  pub limit : ℤ
  pub offset : ℤ

abbrev pub default_limit : ℤ
default_limit = pos 50

abbrev pub max_limit : ℤ
max_limit = pos 100

-- `page - 1` of a page that is at least 1
pred_int : ℤ → ℤ
pred_int (pos zero) = negsuc 0
pred_int (pos (suc n)) = pos n
pred_int (negsuc n) = negsuc (suc n)

clamp_page : ℤ → ℤ
clamp_page page = if lt_int page (pos 1) then pos 1 else page

choose_limit : ℤ → ℤ → ℤ → ℤ
choose_limit limit default_value max_value =
    if lt_int limit (pos 1) || lt_int max_value limit then default_value else limit

unfoldable pub normalize : ℤ → ℤ → ℤ → ℤ → Params
unfolding clamp_page choose_limit pred_int mul_int
normalize page limit default_value max_value = record {
  page = clamp_page page;
  limit = choose_limit limit default_value max_value;
  offset = mul_int (pred_int (clamp_page page)) (choose_limit limit default_value max_value);
}

-- `FromQueryWithDefaults` on the values of `page` and `limit`; `strconv.Atoi`'s error is ignored, its
-- value is not.
unfoldable pub from_query_with_defaults : Text → Text → ℤ → ℤ → Params
unfolding atoi normalize
from_query_with_defaults page limit default_value max_value =
    normalize (atoi page).value (atoi limit).value default_value max_value

unfoldable pub from_query : Text → Text → Params
unfolding from_query_with_defaults
from_query page limit = from_query_with_defaults page limit default_limit max_limit

clamp_page_lem : (page : ℤ) → lt_int (clamp_page page) (pos 1) ≡ false
unfolding clamp_page
clamp_page_lem (pos n) = ground arith
clamp_page_lem (negsuc n) = refl

choose_limit_lem :
    (limit default_value max_value : ℤ)
    → lt_int default_value (pos 1) ≡ false
    → lt_int max_value default_value ≡ false
    → (lt_int (choose_limit limit default_value max_value) (pos 1) ≡ false)
      × (lt_int max_value (choose_limit limit default_value max_value) ≡ false)
unfolding choose_limit
choose_limit_lem limit default_value max_value h k = ground arith

-- Whatever the request asks for, the page is at least 1 and the limit lies between 1 and the maximum,
-- provided that the default limit does.
pub normalize_bounds :
    (page limit default_value max_value : ℤ)
    → lt_int default_value (pos 1) ≡ false
    → lt_int max_value default_value ≡ false
    → (lt_int (normalize page limit default_value max_value).page (pos 1) ≡ false)
      × (lt_int (normalize page limit default_value max_value).limit (pos 1) ≡ false)
      × (lt_int max_value (normalize page limit default_value max_value).limit ≡ false)
unfolding normalize
normalize_bounds page limit default_value max_value h k =
    let (low, high) = choose_limit_lem limit default_value max_value h k in
    (clamp_page_lem page, low, high)

clamp_page-suc : (n : ℕ) → clamp_page (pos (suc n)) ≡ pos (suc n)
unfolding clamp_page
clamp_page-suc n = ground arith

choose_limit-within :
    (limit max_value : ℕ) (default_value : ℤ)
    → 1 ≤ limit
    → limit ≤ max_value
    → choose_limit (pos limit) default_value (pos max_value) ≡ pos limit
unfolding choose_limit
choose_limit-within limit max_value default_value k l = ground arith

-- For a limit within bounds, the offset counts the rows of the pages before, where that number fits an
-- int: the wrap-around is not met.
pub normalize_offset :
    (n limit max_value : ℕ) (default_value : ℤ)
    → 1 ≤ limit
    → limit ≤ max_value
    → n * limit < 2 ^ 63
    → (normalize (pos (suc n)) (pos limit) default_value (pos max_value)).offset ≡ pos (n * limit)
unfolding normalize pred_int
normalize_offset n limit max_value default_value k l m =
    rw (clamp_page-suc n, choose_limit-within limit max_value default_value k l)
      (mul_int_small n limit m)
