-- ===== src/Tasks/Scan/Effects.antt =====
-- When the parts of a scan leave out the calls that a test selects: the rows of the scanner's output, and
-- what follows the run.
use hen_kai_pan.Prelude.{ℕ, Bool, false, List, [], ◌∷◌, Option, none, some, if◌then◌else◌, ◌≡◌}
use hen_kai_pan.Strings.{Text}
use hen_kai_pan.Tasks.World.{
  Env, Event, Task, Scanner, ScanPayload, FindingRow, PolicyAction, enqueued, executed_actions,
  inserted, refreshed_correlation, upserted_vulnerability, linked_vulnerability,
  recalculated_confidence, pure,
}
use hen_kai_pan.Tasks.Policy.{Subject, apply_policies}
use hen_kai_pan.Tasks.Policy.Effects.{apply_policies-Quiet}
use hen_kai_pan.Tasks.Notify.Effects.{
  enqueue_finding_notification-Quiet, enqueue_scan_notification-Quiet, enqueue_snippet_enrich-Quiet,
}
use hen_kai_pan.Tasks.Effects.{Quiet, Quiet-asks_bind, quiets}
use hen_kai_pan.Tasks.Link.{link_to, link_typed, link_uid, link_vulnerability, upsert_of}
use hen_kai_pan.Tasks.Scan.{insert_of, handle_inserted, handle_row, handle_rows, finish_scan}

-- The test selects no call that a row makes.
pub record RowsQuiet (env : Env) (p : Event → Bool) : Type 0 where
  pub task : (t : Task) → p (enqueued t) ≡ false
  pub refreshed : (id : Text) → p (refreshed_correlation id) ≡ false
  pub linked : (id v : Text) → p (linked_vulnerability id v) ≡ false
  pub recalculated : (v : Text) → p (recalculated_confidence v) ≡ false
  pub upserted :
      (project uid : Text) (sc : Scanner) (f : FindingRow) (ty : Text)
      → p (upserted_vulnerability (upsert_of env project uid sc f ty)) ≡ false
  pub insertion :
      (pl : ScanPayload) (sc : Scanner) (f : FindingRow) (now : ℕ) (b : Bool)
      → p (inserted (insert_of env pl sc f now b)) ≡ false
  pub actions :
      (tr : List Event) (sc : Scanner) (f : FindingRow) (id : Text) (s : Subject)
      → Quiet p (
          if env.is_suppressed tr sc.name f.rule_id f.file_path
          then pure tt
          else apply_policies env id s)

-- A test that selects no action is quiet on the policies, whatever is suppressed.
pub actions-Quiet :
    (env : Env) {p : Event → Bool}
    → ((id : Text) (as' : List PolicyAction) → p (executed_actions id as') ≡ false)
    → (tr : List Event) (sc : Scanner) (f : FindingRow) (id : Text) (s : Subject)
    → Quiet p (
        if env.is_suppressed tr sc.name f.rule_id f.file_path
        then pure tt
        else apply_policies env id s)
actions-Quiet env {p} executed tr sc f id s =
    search (quiets, apply_policies-Quiet env {p = p} executed)

module _ {env : Env} {p : Event → Bool} (h : RowsQuiet env p) where
  link_to-Quiet : (id : Text) (o : Option Text) → Quiet p (link_to env id o)
  unfolding link_to
  link_to-Quiet id none = search (quiets)
  link_to-Quiet id (some v) = search (quiets, h.linked, h.recalculated)

  link_uid-Quiet :
      (id project : Text) (sc : Scanner) (f : FindingRow) (uid : Text) (o : Option Text)
      → Quiet p (link_uid env id project sc f uid o)
  unfolding link_uid link_typed
  link_uid-Quiet id project sc f uid none = search (quiets)
  link_uid-Quiet id project sc f uid (some ty) = search (quiets, h.upserted, link_to-Quiet)

  link_vulnerability-Quiet :
      (id project : Text) (sc : Scanner) (f : FindingRow)
      → Quiet p (link_vulnerability env id project sc f)
  unfolding link_vulnerability
  link_vulnerability-Quiet id project sc f = search (link_uid-Quiet)

  handle_inserted-Quiet :
      (pl : ScanPayload) (sc : Scanner) (f : FindingRow) (now : ℕ) (b : Bool) (o : Option Text)
      → ((id : Text) (s : Subject) → Quiet p (if b then pure tt else apply_policies env id s))
      → Quiet p (handle_inserted env pl sc f now b o)
  unfolding handle_inserted
  handle_inserted-Quiet pl sc f now b none k = search (quiets)
  handle_inserted-Quiet pl sc f now b (some id) k =
      search
        (
          quiets,
          h.refreshed,
          link_vulnerability-Quiet,
          k,
          enqueue_finding_notification-Quiet env {p = p} h.task,
        )
        depth 12

  handle_row-Quiet :
      (pl : ScanPayload) (sc : Scanner) (now : ℕ) (f : FindingRow)
      → Quiet p (handle_row env pl sc now f)
  unfolding handle_row
  handle_row-Quiet pl sc now f =
      Quiet-asks_bind (λ tr. env.is_suppressed tr sc.name f.rule_id f.file_path) _
        (λ tr. search (quiets, h.insertion, handle_inserted-Quiet, h.actions) depth 12)

  pub handle_rows-Quiet :
      (pl : ScanPayload) (sc : Scanner) (now : ℕ) (fs : List FindingRow)
      → Quiet p (handle_rows env pl sc now fs)
  unfolding handle_rows
  handle_rows-Quiet pl sc now [] = search (quiets)
  handle_rows-Quiet pl sc now (f ∷ fs) =
      search (quiets, handle_row-Quiet, handle_rows-Quiet pl sc now fs)

  pub finish_scan-Quiet : (pl : ScanPayload) (e o : Option Text) → Quiet p (finish_scan env pl e o)
  unfolding finish_scan
  finish_scan-Quiet pl e (some m) = search (quiets)
  finish_scan-Quiet pl e none = search (
    quiets,
    enqueue_scan_notification-Quiet env {p = p} h.task,
    enqueue_snippet_enrich-Quiet env {p = p} h.task,
  )
