-- ===== src/Events/Types.antt =====
-- The types and the records of internal/events/events.go. Of the metadata, the hub reads the user and the
-- project; the payload stands for the rest of an event.
use hen_kai_pan.Prelude.{ℕ, Bool, List, [], ◌∷◌, any, ◌==◌, if◌then◌else◌}
use hen_kai_pan.Strings.{Text, lit, text_eq}

-- `EventTypes`
abbrev pub event_types : List Text
event_types =
    lit "finding_summary_completed"
    ∷ lit "finding_validation_completed"
    ∷ lit "scan_completed"
    ∷ lit "scan_failed"
    ∷ lit "webhook_delivered"
    ∷ lit "webhook_failed"
    ∷ lit "risk_acceptance_approved"
    ∷ lit "risk_acceptance_rejected"
    ∷ lit "policy_violation"
    ∷ lit "scheduled_task_completed"
    ∷ lit "notification_created"
    ∷ []

unfoldable pub is_valid : Text → Bool
unfolding text_eq
is_valid t = any (λ valid. text_eq t valid) event_types

pub record SseEvent : Type 0 where
  pub kind : Text
  pub payload : Text
  pub user_id : Text
  pub project_id : Text
  pub created_at : ℕ

-- `Publish` and `Broadcast` stamp an event that has no time.
unfoldable pub stamp : ℕ → SseEvent → SseEvent
stamp now e = record e { created_at = if e.created_at == 0 then now else e.created_at }

-- `chan` names the channel, and `inbox` is what it buffers.
pub record Client : Type 0 where
  pub id : Text
  pub chan : ℕ
  pub inbox : List SseEvent
  pub filters : List Text
  pub user_id : Text
  pub project_id : Text
