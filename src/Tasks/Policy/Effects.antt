-- ===== src/Tasks/Policy/Effects.antt =====
-- Applying the policies makes no call but those that execute actions.
use hen_kai_pan.Prelude.{Bool, false, List, [], ◌∷◌, Option, none, some, ◌≡◌}
use hen_kai_pan.Strings.{Text}
use hen_kai_pan.Tasks.World.{Env, Event, Policy, PolicyAction, executed_actions}
use hen_kai_pan.Tasks.Policy.{Subject, apply_policies, apply_each, apply_active}
use hen_kai_pan.Tasks.Effects.{Quiet, quiets}

module _ (env : Env) {p : Event → Bool}
    (executed : (id : Text) (as' : List PolicyAction) → p (executed_actions id as') ≡ false) where
  apply_each-Quiet : (id : Text) (s : Subject) (ps : List Policy) → Quiet p (apply_each id s ps)
  unfolding apply_each
  apply_each-Quiet id s [] = search (quiets)
  apply_each-Quiet id s (po ∷ ps) = search (quiets, executed, apply_each-Quiet id s ps)

  apply_active-Quiet :
      (id : Text) (s : Subject) (o : Option (List Policy)) → Quiet p (apply_active id s o)
  unfolding apply_active
  apply_active-Quiet id s none = search (quiets)
  apply_active-Quiet id s (some ps) = apply_each-Quiet id s ps

  pub apply_policies-Quiet : (id : Text) (s : Subject) → Quiet p (apply_policies env id s)
  unfolding apply_policies
  apply_policies-Quiet id s = search (quiets, apply_active-Quiet)
