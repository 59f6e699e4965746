-- ===== src/Scanner/Registry/Packs.antt =====
-- What the packs name.
use hen_kai_pan.Prelude.{
  Bool, true, false, List, [], ◌∷◌, Option, none, some, ◌≡◌, refl, arith, all, if◌then◌else◌, inl,
  inr, Bool-cases, ◌&&◌,
}
use hen_kai_pan.Strings.{Text, lit, text_eq, text_eq_iff}
use hen_kai_pan.Maps.{Map, lookup}
use hen_kai_pan.Scanner.Registry.{Entry, registry, packs, resolve_pack, git_scanner_names}

is_entry : (Entry → Bool) → Option Entry → Bool
is_entry p none = false
is_entry p (some e) = p e

-- The scanner is registered with this kind of target.
unfoldable pub takes_target : Text → Text → Bool
unfolding is_entry text_eq lookup registry
takes_target target name = is_entry (λ e. text_eq e.target_type target) (lookup name registry)

-- The scanner is registered in this category.
unfoldable pub is_in : Text → Text → Bool
unfolding is_entry text_eq lookup registry
is_in category name = is_entry (λ e. text_eq e.category category) (lookup name registry)

-- A test that every pack passes, with its id and its scanners, is passed by a resolved one.
lookup-all :
    (p : Text → List Text → Bool) (id : Text) (names : List Text) (m : Map (List Text))
    → all (λ x. p x.0 x.1) m ≡ true
    → lookup id m ≡ some names
    → p id names ≡ true
unfolding lookup
lookup-all p id names [] h e = cc
lookup-all p id names ((j, ns) ∷ m) h e = elim (Bool-cases (text_eq j id)) [
  | inl q ↦
      let f : some ns ≡ some names = rw q at e in
      let g : ns ≡ names = cc in
      let i : j ≡ id = (text_eq_iff j id).0 q in rw (← g, ← i) (ground arith)
  | inr q ↦ lookup-all p id names m (ground arith) (rw q at e)
]

-- What is asked of a pack: a scanner, known, of the pack's category, and of a git target but for containers.
unfoldable pub is_pack : Text → List Text → Bool
unfolding takes_target is_in text_eq
is_pack id [] = false
is_pack id (n ∷ ns) =
    all
      (λ name.
        takes_target (if text_eq id (lit "containers") then lit "url" else lit "git") name
        && (if text_eq id (lit "all") then true else is_in id name))
      (n ∷ ns)

packs-is_pack : all (λ x. is_pack x.0 x.1) packs ≡ true
unfolding is_pack packs git_scanner_names registry
packs-is_pack = refl

-- A pack is not empty, and names registered scanners of its own category, those of containers for a URL and
-- all others for a git repository.
pub resolve_pack-is_pack :
    (id : Text) (names : List Text) → resolve_pack id ≡ some names → is_pack id names ≡ true
unfolding resolve_pack
resolve_pack-is_pack id names e = lookup-all is_pack id names packs packs-is_pack e
