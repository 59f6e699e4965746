-- ===== src/Tasks/Effects.antt =====
-- How often a handler's step makes a call: not at all (`Quiet`) or once (`Once`), of the calls that a test
-- selects.
use hen_kai_pan.Prelude.{
  ℕ, suc, ◌+◌, Bool, true, false, List, [], ◌∷◌, ◌++◌, if◌then◌else◌, ◌≡◌, refl, arith, ap, ◌∙◌,
}
use hen_kai_pan.Tasks.World.{Event, Act, pure, asks, emit, ◌>>=◌}

pub count : (Event → Bool) → List Event → ℕ
count p [] = 0
count p (e ∷ es) = let rest = count p es in if p e then suc rest else rest

count-append :
    (p : Event → Bool) (xs ys : List Event) → count p (xs ++ ys) ≡ count p xs + count p ys
unfolding count
count-append p [] ys = ground arith
count-append p (x ∷ xs) ys = ground (arith, count-append p xs ys)

pub data Quiet (p : Event → Bool) {A : Type 0} : Act A → Type 0 where
  quiet : {m : Act A} → ((tr : List Event) → count p (m tr).1 ≡ count p tr) → Quiet p m

pub data Once (p : Event → Bool) {A : Type 0} : Act A → Type 0 where
  once : {m : Act A} → ((tr : List Event) → count p (m tr).1 ≡ suc (count p tr)) → Once p m

pub Quiet-count :
    {p : Event → Bool} {A : Type 0} {m : Act A}
    → Quiet p m
    → (tr : List Event) → count p (m tr).1 ≡ count p tr
Quiet-count (quiet h) tr = h tr

pub Once-count :
    {p : Event → Bool} {A : Type 0} {m : Act A}
    → Once p m
    → (tr : List Event) → count p (m tr).1 ≡ suc (count p tr)
Once-count (once h) tr = h tr

module _ {p : Event → Bool} where
  pub Quiet-pure : {A : Type 0} (a : A) → Quiet p (pure a)
  unfolding pure
  Quiet-pure a = quiet (λ tr. refl)

  pub Quiet-asks : {A : Type 0} (f : List Event → A) → Quiet p (asks f)
  unfolding asks
  Quiet-asks f = quiet (λ tr. refl)

  pub Quiet-emit : (e : Event) → p e ≡ false → Quiet p (emit e)
  unfolding emit count
  Quiet-emit e h = quiet (λ tr. ground (arith, count-append p tr (e ∷ [])))

  pub Once-emit : (e : Event) → p e ≡ true → Once p (emit e)
  unfolding emit count
  Once-emit e h = once (λ tr. ground (arith, count-append p tr (e ∷ [])))

  pub Quiet-bind :
      {A B : Type 0} (m : Act A) (f : A → Act B)
      → Quiet p m
      → ((a : A) → Quiet p (f a))
      → Quiet p (m >>= f)
  unfolding ◌>>=◌
  Quiet-bind m f h k = quiet (λ tr. Quiet-count (k (m tr).0) (m tr).1 ∙ Quiet-count h tr)

  -- As `Quiet-bind`, where what is read matters.
  pub Quiet-asks_bind :
      {A B : Type 0} (g : List Event → A) (f : A → Act B)
      → ((tr : List Event) → Quiet p (f (g tr)))
      → Quiet p (asks g >>= f)
  unfolding ◌>>=◌ asks
  Quiet-asks_bind g f k = quiet (λ tr. Quiet-count (k tr) tr)

  pub Once-left :
      {A B : Type 0} (m : Act A) (f : A → Act B)
      → Once p m
      → ((a : A) → Quiet p (f a))
      → Once p (m >>= f)
  unfolding ◌>>=◌
  Once-left m f h k = once (λ tr. Quiet-count (k (m tr).0) (m tr).1 ∙ Once-count h tr)

  pub Once-right :
      {A B : Type 0} (m : Act A) (f : A → Act B)
      → Quiet p m
      → ((a : A) → Once p (f a))
      → Once p (m >>= f)
  unfolding ◌>>=◌
  Once-right m f h k = once (λ tr. Once-count (k (m tr).0) (m tr).1 ∙ ap suc (Quiet-count h tr))

  pub Quiet-if :
      {A : Type 0} (b : Bool) (m n : Act A)
      → (b ≡ true → Quiet p m)
      → (b ≡ false → Quiet p n)
      → Quiet p (if b then m else n)
  Quiet-if true m n h k = h refl
  Quiet-if false m n h k = k refl

  pub Once-if :
      {A : Type 0} (b : Bool) (m n : Act A)
      → (b ≡ true → Once p m)
      → (b ≡ false → Once p n)
      → Once p (if b then m else n)
  Once-if true m n h k = h refl
  Once-if false m n h k = k refl

pub ruleset quiets = (Quiet-pure, Quiet-asks, Quiet-emit, Quiet-bind, Quiet-if)
