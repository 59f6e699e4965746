-- ===== src/Tasks/Scan/Settles.antt =====
-- A scan is settled once: by `MarkFailed` or `MarkCompleted`, and not where it was not started.
use hen_kai_pan.Prelude.{
  suc, Bool, false, List, [], ◌∷◌, ◌++◌, Option, none, some, ◌≡◌, refl, ap, ◌∙◌, Option-cases, ◌⊎◌,
  inl, inr,
}
use hen_kai_pan.Strings.{Text, text_eq, text_eq_refl}
use hen_kai_pan.Tasks.World.{
  Env, Event, Scanner, ScanPayload, RunResult, Cloned, marked_failed, marked_completed,
  marked_running, cloned, clone_failed, pure, asks, emit, ◌>>=◌,
}
use hen_kai_pan.Tasks.Notify.Effects.{enqueue_scan_notification-Quiet}
use hen_kai_pan.Tasks.Effects.{
  count, Once, Once-count, Once-emit, Once-left, Once-right, Once-if, Quiet-count, Quiet-emit,
  quiets,
}
use hen_kai_pan.Tasks.Scan.{
  fail_scan, complete_scan, handle_result, scan_clone, scan_target, scan_marked, scan_with,
  handle_scan, failed,
}
use hen_kai_pan.Tasks.Scan.Effects.{RowsQuiet, actions-Quiet, handle_rows-Quiet, finish_scan-Quiet}

-- The calls that settle the scan `id`.
unfoldable pub settles : Text → Event → Bool
settles id (marked_failed i m l) = text_eq i id
settles id (marked_completed i l e) = text_eq i id
settles id e = false

settles-RowsQuiet : (env : Env) (id : Text) → RowsQuiet env (settles id)
unfolding settles
settles-RowsQuiet env id = record {
  task = λ t. refl;
  refreshed = λ i. refl;
  linked = λ i v. refl;
  recalculated = λ v. refl;
  upserted = λ project uid sc f ty. refl;
  insertion = λ pl sc f now b. refl;
  actions = actions-Quiet env {p = settles id} (λ i as'. refl);
}

ruleset onces = (Once-emit, Once-left, Once-right, Once-if)

module _ (env : Env) (p : ScanPayload) where
  fail_scan-Once : (m l r : Text) → Once (settles p.scan_id) (fail_scan env p m l r)
  unfolding fail_scan settles
  fail_scan-Once m l r = search (
    quiets,
    Once-emit,
    Once-left,
    text_eq_refl,
    enqueue_scan_notification-Quiet env {p = settles p.scan_id}
        (settles-RowsQuiet env p.scan_id).task,
  )

  complete_scan-Once :
      (sc : Scanner) (r : RunResult) → Once (settles p.scan_id) (complete_scan env p sc r)
  unfolding complete_scan settles
  complete_scan-Once sc r = search (
    quiets,
    onces,
    text_eq_refl,
    handle_rows-Quiet (settles-RowsQuiet env p.scan_id),
    finish_scan-Quiet (settles-RowsQuiet env p.scan_id),
  )

  handle_result-Once :
      (sc : Scanner) (r : RunResult) (o : Option Text)
      → Once (settles p.scan_id) (handle_result env p sc r o)
  unfolding handle_result
  handle_result-Once sc r none = complete_scan-Once sc r
  handle_result-Once sc r (some e) = search (Once-if, fail_scan-Once, complete_scan-Once)

  scan_clone-Once : (sc : Scanner) (c : Cloned) → Once (settles p.scan_id) (scan_clone env p sc c)
  unfolding scan_clone settles
  scan_clone-Once sc (clone_failed m l) = fail_scan-Once m l m
  scan_clone-Once sc (cloned dir) = search (quiets, Once-left, Once-right, handle_result-Once)

  scan_target-Once : (sc : Scanner) → Once (settles p.scan_id) (scan_target env p sc)
  unfolding scan_target
  scan_target-Once sc = search (quiets, Once-right, Once-if, scan_clone-Once, handle_result-Once)

emit-Settles :
    (p : ScanPayload) (tr : List Event)
    → count (settles p.scan_id) (tr ++ marked_running p.scan_id ∷ []) ≡ count (settles p.scan_id) tr
unfolding emit settles
emit-Settles p tr =
    Quiet-count (Quiet-emit {p = settles p.scan_id} (marked_running p.scan_id) refl) tr

-- Once it is marked running, the scan is the run of its target.
pub handle_scan_started :
    (env : Env) (p : ScanPayload) (sc : Scanner) (tr : List Event)
    → env.get_scanner p.scanner ≡ some sc
    → env.mark_running_err (tr ++ marked_running p.scan_id ∷ []) p.scan_id ≡ none
    → handle_scan env p tr ≡ scan_target env p sc (tr ++ marked_running p.scan_id ∷ [])
unfolding handle_scan scan_with scan_marked ◌>>=◌ asks emit
handle_scan_started env p sc tr h k = rw (h, scan_with) rw (k, scan_marked) refl

-- A scan of a known scanner that could be marked running makes exactly one settling call for itself,
-- whatever the clone, the run, the parser and the database answer.
pub handle_scan-settles_once :
    (env : Env) (p : ScanPayload) (sc : Scanner) (tr : List Event)
    → env.get_scanner p.scanner ≡ some sc
    → env.mark_running_err (tr ++ marked_running p.scan_id ∷ []) p.scan_id ≡ none
    → count (settles p.scan_id) (handle_scan env p tr).1 ≡ suc (count (settles p.scan_id) tr)
handle_scan-settles_once env p sc tr h k =
    ap (λ r. count (settles p.scan_id) r.1) (handle_scan_started env p sc tr h k)
    ∙ Once-count (scan_target-Once env p sc) (tr ++ marked_running p.scan_id ∷ [])
    ∙ ap suc (emit-Settles p tr)

-- A scan of an unknown scanner, or one that could not be marked running, returns an error to the queue
-- and settles nothing.
handle_scan_unstarted :
    (env : Env) (p : ScanPayload) (tr : List Event) (e : Text)
    → (env.get_scanner p.scanner ≡ none)
      ⊎ (env.mark_running_err (tr ++ marked_running p.scan_id ∷ []) p.scan_id ≡ some e)
    → ((m : Text) × ((handle_scan env p tr).0 ≡ failed m))
      × (count (settles p.scan_id) (handle_scan env p tr).1 ≡ count (settles p.scan_id) tr)
unfolding handle_scan scan_with scan_marked ◌>>=◌ asks emit pure
handle_scan_unstarted env p tr e (inl n) = rw (n, scan_with) ((_, refl), refl)
handle_scan_unstarted env p tr e (inr k) = elim (Option-cases (env.get_scanner p.scanner)) [
  | inl n ↦ rw (n, scan_with) ((_, refl), refl)
  | inr (sc, q) ↦ rw (q, scan_with) (rw (k, scan_marked) ((_, refl), emit-Settles p tr))
]
