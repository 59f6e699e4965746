-- ===== src/Tasks/Policy.antt =====
-- internal/tasks/policy_engine.go: the actions of the policies that a finding meets.
pub mod Effects
use hen_kai_pan.Prelude.{
  Bool, true, false, List, [], ◌∷◌, Option, none, some, ◌≡◌, refl, arith, if◌then◌else◌, not, ◌&&◌,
  All, ◌↔◌, ◌≢◌,
}
use hen_kai_pan.Strings.{Text, lit, text_eq, contains}
use hen_kai_pan.Tasks.World.{
  PolicyCondition, Policy, Env, Event, Act, executed_actions, pure, asks, emit, ◌>>=◌, ◌>>◌,
}

-- What a policy reads of a finding.
pub record Subject : Type 0 where
  pub scanner : Text
  pub severity : Text
  pub rule_id : Text
  pub file_path : Text

-- The switch on `c.Field`; `none` is its default.
unfoldable pub actual : PolicyCondition → Subject → Option Text
actual c s =
    if text_eq c.field_name (lit "severity")
    then some s.severity
    else if text_eq c.field_name (lit "scanner")
    then some s.scanner
    else if text_eq c.field_name (lit "rule_id")
    then some s.rule_id
    else if text_eq c.field_name (lit "file_path")
    then some s.file_path
    else none

-- The switch on `c.Op`.
unfoldable pub holds : PolicyCondition → Option Text → Bool
holds c none = false
holds c (some value) =
    if text_eq c.op (lit "eq")
    then text_eq value c.value
    else if text_eq c.op (lit "contains")
    then contains value c.value
    else false

-- The loop of `conditionsMatch`.
no_failure : List PolicyCondition → Subject → Bool
no_failure [] s = true
no_failure (c ∷ cs) s = let rest = no_failure cs s in if holds c (actual c s) then rest else false

is_nil : List PolicyCondition → Bool
is_nil [] = true
is_nil (c ∷ cs) = false

unfoldable pub conditions_match : List PolicyCondition → Subject → Bool
unfolding no_failure is_nil holds actual
conditions_match conds s = if no_failure conds s then not (is_nil conds) else false

no_failure-All :
    (cs : List PolicyCondition) (s : Subject)
    → (no_failure cs s ≡ true) ↔ All (λ c. holds c (actual c s) ≡ true) cs
unfolding no_failure
no_failure-All [] s = (λ h. tt, λ u. refl)
no_failure-All (c ∷ cs) s = ground (arith, no_failure-All cs s)

-- A policy applies exactly where it has a condition and all its conditions hold.
pub conditions_match_lem :
    (cs : List PolicyCondition) (s : Subject)
    → (conditions_match cs s ≡ true) ↔ ((cs ≢ []) × All (λ c. holds c (actual c s) ≡ true) cs)
unfolding conditions_match is_nil
conditions_match_lem [] s = ground arith
conditions_match_lem (c ∷ cs) s = ground (arith, no_failure-All (c ∷ cs) s)

-- The loop of `applyPolicies`; an error of `ExecuteActions` is only logged.
apply_each : Text → Subject → List Policy → Act (Unit {0})
apply_each finding_id s [] = pure tt
apply_each finding_id s (p ∷ ps) =
    let rest = apply_each finding_id s ps in
    if conditions_match p.conditions s
    then emit (executed_actions finding_id p.actions) >> rest
    else rest

apply_active : Text → Subject → Option (List Policy) → Act (Unit {0})
apply_active finding_id s none = pure tt
apply_active finding_id s (some active) = apply_each finding_id s active

unfoldable pub apply_policies : Env → Text → Subject → Act (Unit {0})
unfolding apply_active apply_each conditions_match
apply_policies env finding_id s = do active ← asks env.list_active; apply_active finding_id s active
