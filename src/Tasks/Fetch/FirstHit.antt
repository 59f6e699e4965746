-- ===== src/Tasks/Fetch/FirstHit.antt =====
-- Which manifest is fetched.
use hen_kai_pan.Prelude.{
  ℕ, Bool, true, false, List, [], ◌∷◌, ◌++◌, Option, none, some, ◌≡◌, refl, ap, arith,
  if◌then◌else◌, ◌==◌, ltb, leb, take, zero, suc, length, All, ◌||◌, ◌⊎◌, inl, inr,
}
use hen_kai_pan.Strings.{Text, is_empty, trim_space}
use hen_kai_pan.Tasks.Fetch.{
  Repo, Response, Answer, bad_request, no_response, response, Fetched, found, not_fetched,
  FetchError, too_large, http_error, Http, endpoint, read_body, read_answer, fetch_first,
  manifest_max_bytes,
}

-- The answer is 404 Not Found, or its body is blank.
abbrev pub IsMissing : Answer → Type 0
IsMissing a =
    (r : Response) × (body : Text) × (a ≡ response r)
    × (r.body ≡ some body)
    × (((r.status == 404) || is_empty (trim_space (take (suc manifest_max_bytes) body))) ≡ true)

-- The answer is below 400, and `body` is all of its body, which is not blank and not too large.
pub record IsHit (a : Answer) (body : Text) : Type 0 where
  pub status : ℕ
  pub answered : a ≡ response (record { status = status; body = some body })
  pub succeeded : leb 400 status ≡ false
  pub bounded : ltb manifest_max_bytes (length body) ≡ false
  pub filled : is_empty (trim_space body) ≡ false

take_short : (n : ℕ) (xs : Text) → ltb n (length (take (suc n) xs)) ≡ false → take (suc n) xs ≡ xs
take_short n [] h = refl
take_short zero (x ∷ xs) h = ground arith
take_short (suc n) (x ∷ xs) h = ap (λ ys. x ∷ ys) (take_short n xs (ground arith))

apart : {e : FetchError} {name body : Text} → not_fetched e ≡ found name body → ⊥
apart h = cc

branches :
    (large missing failed blank : Bool) (mf short : Text) (rest : Fetched) (name body : Text)
    → (if large
        then not_fetched too_large
        else if missing
        then rest
        else if failed
        then not_fetched http_error
        else if blank
        then rest
        else found mf short)
      ≡ found name body
    → ((large ≡ false)
        × (missing ≡ false)
        × (failed ≡ false)
        × (blank ≡ false)
        × (name ≡ mf)
        × (body ≡ short))
      ⊎ (((missing || blank) ≡ true) × (rest ≡ found name body))
branches true missing failed blank mf short rest name body h = absurd (apart h)
branches false true failed blank mf short rest name body h = inr (refl, h)
branches false false true blank mf short rest name body h = absurd (apart h)
branches false false false true mf short rest name body h = inr (refl, h)
branches false false false false mf short rest name body h = inl (refl, refl, refl, refl, cc, cc)

read_body-cases :
    (mf : Text) (status : ℕ) (o : Option Text) (rest : Fetched) (name body : Text)
    → read_body mf status o rest ≡ found name body
    → ((name ≡ mf) × IsHit (response (record { status = status; body = o })) body)
      ⊎ (IsMissing (response (record { status = status; body = o })) × (rest ≡ found name body))
unfolding read_body
read_body-cases mf status none rest name body h = absurd (apart h)
read_body-cases mf status (some bytes) rest name body h =
    elim (branches _ _ _ _ mf _ rest name body h) [
      | inl (a, b, c, d, en, eb) ↦
          let whole = take_short manifest_max_bytes bytes a in
          inl (
            en,
            record {
              status = status;
              answered = rw (eb, whole) refl;
              succeeded = c;
              bounded = rw eb a;
              filled = rw eb d;
            },
          )
      | inr (m, e) ↦ inr ((record { status = status; body = some bytes }, bytes, refl, refl, m), e)
    ]

read_answer-cases :
    (mf : Text) (a : Answer) (rest : Fetched) (name body : Text)
    → read_answer mf a rest ≡ found name body
    → ((name ≡ mf) × IsHit a body) ⊎ (IsMissing a × (rest ≡ found name body))
unfolding read_answer
read_answer-cases mf bad_request rest name body h = absurd (apart h)
read_answer-cases mf no_response rest name body h = absurd (apart h)
read_answer-cases mf (response r) rest name body h =
    read_body-cases mf r.status r.body rest name body h

module _ (http : Http) (api_base token : Text) (r : Repo) where
  abbrev pub answer_for : Text → Answer
  answer_for mf = http.get (endpoint http api_base r mf) token

  -- `name` is the first of the paths whose answer is not missing, and it answers with `body`.
  pub record IsFirstHit (paths : List Text) (name body : Text) : Type 0 where
    pub before : List Text
    pub after : List Text
    pub splits : paths ≡ before ++ name ∷ after
    pub missing : All (λ mf. IsMissing (answer_for mf)) before
    pub hit : IsHit (answer_for name) body

  -- A manifest that is fetched is the first of the paths that the server has: each path before it answers
  -- 404 or nothing but blanks, and the answer is whole, not blank and within the size limit.
  pub fetch_first-IsFirstHit :
      (paths : List Text) (name body : Text)
      → fetch_first http api_base token r paths ≡ found name body
      → IsFirstHit paths name body
  unfolding fetch_first
  fetch_first-IsFirstHit [] name body h = absurd (apart h)
  fetch_first-IsFirstHit (mf ∷ mfs) name body h =
      elim (read_answer-cases mf (answer_for mf) _ name body h) [
        | inl (e, k) ↦ record {
          before = [];
          after = mfs;
          splits = rw e refl;
          missing = tt;
          hit = rw e k;
        }
        | inr (m, e) ↦
            let f = fetch_first-IsFirstHit mfs name body e in
            record {
              before = mf ∷ f.before;
              after = f.after;
              splits = ap (λ xs. mf ∷ xs) f.splits;
              missing = (m, f.missing);
              hit = f.hit;
            }
      ]
