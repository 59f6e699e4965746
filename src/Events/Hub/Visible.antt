-- ===== src/Events/Hub/Visible.antt =====
-- What the filters and the scope of a client let through.
use hen_kai_pan.Prelude.{
  ◌⊎◌, In, refl, sym, false≢true, true, List, [], ◌∷◌, ◌≡◌, arith, Bool-cases, inl, inr,
}
use hen_kai_pan.Strings.{Text, text_eq, text_eq_iff, is_empty}
use hen_kai_pan.Maps.{mem}
use hen_kai_pan.Events.Types.{Client, SseEvent}
use hen_kai_pan.Events.Hub.{matches_filters, matches_scope, scoped}

-- A client that names types gets events of those, and one that names none gets all.
abbrev pub IsWanted : Client → SseEvent → Type 0
IsWanted c e = (c.filters ≡ []) ⊎ In e.kind c.filters

-- Two names agree, where both are given.
abbrev pub AreCompatible : Text → Text → Type 0
AreCompatible own other = (own ≡ []) ⊎ (other ≡ []) ⊎ (own ≡ other)

abbrev pub IsFor : Client → SseEvent → Type 0
IsFor c e = AreCompatible c.user_id e.user_id × AreCompatible c.project_id e.project_id

mem-In : (k : Text) (ks : List Text) → mem k ks ≡ true → In k ks
unfolding mem
mem-In k [] h = absurd (false≢true h)
mem-In k (j ∷ ks) h = elim (Bool-cases (text_eq j k)) [
  | inl e ↦ inl (sym ((text_eq_iff j k).0 e))
  | inr e ↦ inr (mem-In k ks (ground arith))
]

wanted_by :
    (k : Text) (ks : List Text)
    → elim ks [ [] ↦ true | f ∷ fs ↦ mem k (f ∷ fs) ] ≡ true
    → (ks ≡ []) ⊎ In k ks
wanted_by k [] h = inl refl
wanted_by k (f ∷ fs) h = inr (mem-In k (f ∷ fs) h)

pub matches_filters-IsWanted :
    (c : Client) (e : SseEvent) → matches_filters c e ≡ true → IsWanted c e
unfolding matches_filters
matches_filters-IsWanted c e h = wanted_by e.kind c.filters h

empty_text : (s : Text) → is_empty s ≡ true → s ≡ []
unfolding is_empty
empty_text [] h = refl
empty_text (c ∷ s) h = cc

scoped-AreCompatible : (own other : Text) → scoped own other ≡ true → AreCompatible own other
unfolding scoped
scoped-AreCompatible own other h = elim (Bool-cases (is_empty own)) [
  | inl e ↦ inl (empty_text own e)
  | inr e ↦ elim (Bool-cases (is_empty other)) [
    | inl e' ↦ inr (inl (empty_text other e'))
    | inr e' ↦ inr (inr ((text_eq_iff own other).0 (ground arith)))
  ]
]

pub matches_scope-IsFor : (c : Client) (e : SseEvent) → matches_scope c e ≡ true → IsFor c e
unfolding matches_scope
matches_scope-IsFor c e h = (
  scoped-AreCompatible c.user_id e.user_id (ground arith),
  scoped-AreCompatible c.project_id e.project_id (ground arith),
)
