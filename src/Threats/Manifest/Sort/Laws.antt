-- ===== src/Threats/Manifest/Sort/Laws.antt =====
-- The sort orders its rows, keeps them, and does not depend on the order in which they arrive.
use mathlib.Core.List.{Permᴰ}
use mathlib.Core.List.Permᴰ
use mathlib.Core.Path.{subst}
use hen_kai_pan.Prelude.{
  true, false, List, [], ◌∷◌, All, ◌≡◌, refl, sym, ◌∙◌, arith, Bool-cases, inl, inr,
}
use hen_kai_pan.Strings.{Text, text_eq_iff, text_lt_asymm, text_lt_total, text_lt-of_not_lt}
use hen_kai_pan.Threats.Records.{Dependency}
use hen_kai_pan.Threats.Manifest.Sort.{row_less, insert_row, sort_rows}

row_less_asymm : (a b : Dependency) → row_less a b ≡ true → row_less b a ≡ false
unfolding row_less
row_less_asymm a b h = ground (
  arith,
  text_eq_iff a.name b.name,
  text_eq_iff b.name a.name,
  text_lt_asymm a.name b.name,
  text_lt_asymm a.version b.version,
)

row_less-of_not_less :
    (e a b : Dependency) → row_less e a ≡ true → row_less e b ≡ false → row_less b a ≡ true
unfolding row_less
row_less-of_not_less e a b h k = ground (
  arith,
  text_eq_iff e.name a.name,
  text_eq_iff e.name b.name,
  text_eq_iff b.name a.name,
  text_lt-of_not_lt e.name a.name b.name,
  text_lt-of_not_lt e.version a.version b.version,
  text_lt_total e.name b.name,
  text_lt_asymm e.name b.name,
)

-- Rows of one manifest.
pub record SameSource (a b : Dependency) : Type 0 where
  pub ecosystem : a.ecosystem ≡ b.ecosystem
  pub source_file : a.source_file ≡ b.source_file

row_path :
    (a b : Dependency)
    → a.ecosystem ≡ b.ecosystem
    → a.name ≡ b.name
    → a.version ≡ b.version
    → a.source_file ≡ b.source_file
    → a ≡ b
row_path a b p q r s = λ i. record { ecosystem = p i; name = q i; version = r i; source_file = s i }

-- Rows of one manifest that tie are one row.
row_less_tie :
    (a b : Dependency) → SameSource a b → row_less a b ≡ false → row_less b a ≡ false → a ≡ b
unfolding row_less
row_less_tie a b same h k =
    row_path a b same.ecosystem
      (ground
        (arith, text_eq_iff a.name b.name, text_eq_iff b.name a.name, text_lt_total a.name b.name))
      (ground (
        arith,
        text_eq_iff a.name b.name,
        text_eq_iff b.name a.name,
        text_lt_total a.name b.name,
        text_eq_iff a.version b.version,
        text_lt_total a.version b.version,
      ))
      same.source_file

-- Two rows change places at the head of a list.
insert_row_comm_nil :
    (a b : Dependency)
    → SameSource a b
    → insert_row a (insert_row b []) ≡ insert_row b (insert_row a [])
unfolding insert_row
insert_row_comm_nil a b same =
    ground (arith, row_less_asymm a b, row_less_asymm b a, row_less_tie a b same)

insert_row_comm_cons :
    (a b e : Dependency) (es : List Dependency)
    → SameSource a b
    → insert_row a (insert_row b es) ≡ insert_row b (insert_row a es)
    → insert_row a (insert_row b (e ∷ es)) ≡ insert_row b (insert_row a (e ∷ es))
unfolding insert_row
insert_row_comm_cons a b e es same ih = ground (
  arith,
  row_less_asymm a b,
  row_less_asymm b a,
  row_less_tie a b same,
  row_less-of_not_less e a b,
  row_less-of_not_less e b a,
)

insert_row_comm :
    (a b : Dependency) (ds : List Dependency)
    → SameSource a b
    → insert_row a (insert_row b ds) ≡ insert_row b (insert_row a ds)
insert_row_comm a b [] same = insert_row_comm_nil a b same
insert_row_comm a b (e ∷ es) same = insert_row_comm_cons a b e es same (insert_row_comm a b es same)

-- All rows come from one manifest.
pub record HasSource (eco file : Text) (d : Dependency) : Type 0 where
  pub ecosystem : d.ecosystem ≡ eco
  pub source_file : d.source_file ≡ file

HasSource-same :
    (eco file : Text) (a b : Dependency)
    → HasSource eco file a
    → HasSource eco file b
    → SameSource a b
HasSource-same eco file a b h k = record {
  ecosystem = h.ecosystem ∙ sym k.ecosystem;
  source_file = h.source_file ∙ sym k.source_file;
}

pub All-perm :
    (P : Dependency → Type 0) {xs ys : List Dependency} → Permᴰ xs ys → All P xs → All P ys
All-perm P Permᴰ.nil h = tt
All-perm P (Permᴰ.cons e d) (p, h) = (subst P e p, All-perm P d h)
All-perm P (Permᴰ.swap e f) (p, (q, h)) = (subst P f q, (subst P e p, h))
All-perm P (Permᴰ.trans d d') h = All-perm P d' (All-perm P d h)

pub sort_rows-perm :
    (eco file : Text) {xs ys : List Dependency}
    → Permᴰ xs ys
    → All (HasSource eco file) xs
    → sort_rows xs ≡ sort_rows ys
unfolding sort_rows
sort_rows-perm eco file Permᴰ.nil h = refl
sort_rows-perm eco file (Permᴰ.cons {b = b} e d) (p, h) = rw (e, sort_rows-perm eco file d h)
sort_rows-perm eco file (Permᴰ.swap {a = a} {b = b} {l = l} e f) (p, (q, h)) =
    rw (← e, ← f) (insert_row_comm a b (sort_rows l) (HasSource-same eco file a b p q))
sort_rows-perm eco file (Permᴰ.trans d d') h =
    sort_rows-perm eco file d h ∙ sort_rows-perm eco file d' (All-perm _ d h)

insert_row-perm : (d : Dependency) (ds : List Dependency) → Permᴰ (d ∷ ds) (insert_row d ds)
unfolding insert_row
insert_row-perm d [] = Permᴰ.refl (d ∷ [])
insert_row-perm d (e ∷ es) = elim (Bool-cases (row_less e d)) [
  | inl h ↦ rw h (Permᴰ.trans (Permᴰ.swap refl refl) (Permᴰ.cons refl (insert_row-perm d es)))
  | inr h ↦ rw h (Permᴰ.refl (d ∷ e ∷ es))
]

-- The sorted rows are the given rows, each as often.
pub sort_rows-permutes : (ds : List Dependency) → Permᴰ ds (sort_rows ds)
unfolding sort_rows
sort_rows-permutes [] = Permᴰ.nil
sort_rows-permutes (d ∷ ds) =
    Permᴰ.trans (Permᴰ.cons refl (sort_rows-permutes ds)) (insert_row-perm d (sort_rows ds))

-- No row is below the one before it.
abbrev pub IsSorted : List Dependency → Type 0
IsSorted [] = Unit
IsSorted (d ∷ []) = Unit
IsSorted (d ∷ e ∷ es) = (row_less e d ≡ false) × IsSorted (e ∷ es)

insert_row-IsSorted :
    (d : Dependency) (ds : List Dependency) → IsSorted ds → IsSorted (insert_row d ds)
unfolding insert_row
insert_row-IsSorted d [] h = tt
insert_row-IsSorted d (e ∷ []) h = ground (arith, row_less_asymm e d)
insert_row-IsSorted d (e ∷ f ∷ es) (p, h) =
    ground (arith, row_less_asymm e d, insert_row-IsSorted d (f ∷ es) h)

pub sort_rows-IsSorted : (ds : List Dependency) → IsSorted (sort_rows ds)
unfolding sort_rows
sort_rows-IsSorted [] = tt
sort_rows-IsSorted (d ∷ ds) = insert_row-IsSorted d (sort_rows ds) (sort_rows-IsSorted ds)
