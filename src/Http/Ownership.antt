-- ===== src/Http/Ownership.antt =====
-- internal/middleware/ownership.go: who may reach a resource. The five ownership queries are one parameter.
use hen_kai_pan.Prelude.{
  Bool, true, false, List, [], ◌∷◌, ◌++◌, ◌||◌, Option, none, some, if◌then◌else◌, not, ◌≡◌, refl,
  ◌⊎◌, inl, inr, arith, Bool-cases,
}
use hen_kai_pan.Strings.{Text, lit, text_eq, text_eq_iff, is_empty, split}

pub record Claims : Type 0 where
  pub role : Text
  pub user_id : Text

pub data Kind : Type 0 where
  project app scan finding risk_acceptance : Kind

-- `served` is the call of the next handler; the others are the answers that are written.
pub data Access : Type 0 where
  served unauthorized id_required unknown_resource check_failed forbidden : Access

-- `roleCapabilities`: may the role read, and write?
role_capabilities : Text → Option (Bool × Bool)
unfolding text_eq
role_capabilities role =
    if text_eq role (lit "admin")
    then some (true, true)
    else if text_eq role (lit "viewer")
    then some (true, false)
    else none

capability_of : Text → Option (Bool × Bool) → Bool
unfolding text_eq
capability_of cap none = false
capability_of cap (some c) = if text_eq cap (lit "read") then c.0 else c.1

unfoldable pub has_capability : Text → Text → Bool
unfolding role_capabilities capability_of
has_capability role cap = capability_of cap (role_capabilities role)

-- strings.ReplaceAll(s, "-", "")
no_hyphens : Text → Text
no_hyphens [] = []
no_hyphens (c ∷ s) =
    let rest = no_hyphens s in if text_eq (c ∷ []) (lit "-") then rest else c ∷ rest

names_resource : Text → Text → Bool
unfolding text_eq no_hyphens
names_resource resource_type part =
    text_eq part resource_type
    || text_eq part (resource_type ++ lit "s")
    || text_eq part (no_hyphens resource_type)
    || text_eq part (no_hyphens resource_type ++ lit "s")

-- The part after the first one that names the resource and is not the last.
id_among : Text → List Text → Text
unfolding names_resource
id_among resource_type [] = []
id_among resource_type (part ∷ []) = []
id_among resource_type (part ∷ next ∷ rest) =
    let later = id_among resource_type (next ∷ rest) in
    if names_resource resource_type part then next else later

unfoldable pub extract_resource_id : Text → Text → Text
unfolding id_among split
extract_resource_id path resource_type = id_among resource_type (split path b'/')

unfoldable pub kind_of : Text → Option Kind
unfolding text_eq
kind_of t =
    if text_eq t (lit "project")
    then some project
    else if text_eq t (lit "app")
    then some app
    else if text_eq t (lit "scan")
    then some scan
    else if text_eq t (lit "finding")
    then some finding
    else if text_eq t (lit "risk-acceptance")
    then some risk_acceptance
    else none

-- `none` where the query fails.
answer_of : Option Bool → Access
answer_of none = check_failed
answer_of (some owned) = if not owned then forbidden else served

-- Only an admin may write.
has_capability-admin : (role : Text) → has_capability role (lit "write") ≡ true → role ≡ lit "admin"
unfolding has_capability role_capabilities capability_of
has_capability-admin role h = (text_eq_iff role (lit "admin")).0 (ground arith)

answer-served : (o : Option Bool) → answer_of o ≡ served → o ≡ some true
unfolding answer_of
answer-served none h = ground arith
answer-served (some true) h = refl
answer-served (some false) h = ground arith

module _ (check : Kind → Text → Text → Option Bool) where
  check_kind : Text → Text → Option Kind → Access
  unfolding answer_of
  check_kind user_id resource_id none = unknown_resource
  check_kind user_id resource_id (some kind) = answer_of (check kind user_id resource_id)

  unfoldable pub require_ownership : Text → Option Claims → Text → Access
  unfolding check_kind has_capability extract_resource_id is_empty kind_of
  require_ownership resource_type none path = unauthorized
  require_ownership resource_type (some claims) path =
      if has_capability claims.role (lit "write")
      then served
      else let resource_id = extract_resource_id path resource_type in
        if is_empty resource_id
        then id_required
        else check_kind claims.user_id resource_id (kind_of resource_type)

  checked-served :
      (user_id resource_id : Text) (o : Option Kind)
      → check_kind user_id resource_id o ≡ served
      → (kind : Kind) × (o ≡ some kind) × (check kind user_id resource_id ≡ some true)
  unfolding check_kind
  checked-served user_id resource_id none h = ground arith
  checked-served user_id resource_id (some kind) h =
      (kind, refl, answer-served (check kind user_id resource_id) h)

  -- A request that is served comes from an admin, or names a resource, of a kind that can be owned, which the
  -- database says its user owns; a failed query serves nobody.
  pub require_ownership_sound :
      (resource_type : Text) (o : Option Claims) (path : Text)
      → require_ownership resource_type o path ≡ served
      → (claims : Claims) × (o ≡ some claims)
        × ((claims.role ≡ lit "admin")
            ⊎ ((kind : Kind) × (kind_of resource_type ≡ some kind)
                × (is_empty (extract_resource_id path resource_type) ≡ false)
                × (check kind claims.user_id (extract_resource_id path resource_type) ≡ some true)))
  unfolding require_ownership
  require_ownership_sound resource_type none path h = ground arith
  require_ownership_sound resource_type (some claims) path h =
      let id = extract_resource_id path resource_type in
      (
        claims,
        refl,
        elim (Bool-cases (has_capability claims.role (lit "write"))) [
          | inl e ↦ inl (has_capability-admin claims.role e)
          | inr e ↦
              let named : is_empty id ≡ false = ground arith in
              let owned = checked-served claims.user_id id (kind_of resource_type) (ground arith) in
              inr (owned.0, owned.1, named, owned.2)
        ],
      )
