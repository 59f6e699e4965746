-- ===== src/Tasks/Scan/Done.antt =====
-- The worker tells the queue that a scan is done only where it was marked as completed.
use hen_kai_pan.Prelude.{
  suc, Bool, true, false, List, Option, none, some, if◌then◌else◌, ◌≡◌, refl, ◌∙◌, ap,
}
use hen_kai_pan.Strings.{Text, text_eq, text_eq_refl, is_empty}
use hen_kai_pan.Tasks.World.{
  Env, Event, Act, Scanner, ScanPayload, RunResult, Cloned, marked_completed, removed_dir, cloned,
  clone_failed, pure, emit, ◌>>=◌,
}
use hen_kai_pan.Tasks.Notify.Effects.{enqueue_scan_notification-Quiet}
use hen_kai_pan.Tasks.Effects.{
  count, Quiet, Quiet-count, Quiet-asks, Quiet-emit, Once, Once-count, Once-emit, Once-left,
  Once-right, quiets,
}
use hen_kai_pan.Tasks.Scan.{
  fail_scan, complete_scan, handle_result, scan_clone, scan_target, scan_marked, scan_with,
  handle_scan, Outcome, done, failed,
}
use hen_kai_pan.Tasks.Scan.Effects.{RowsQuiet, actions-Quiet, handle_rows-Quiet, finish_scan-Quiet}

-- The call of `MarkCompleted` for the scan `id`.
unfoldable pub completes : Text → Event → Bool
completes id (marked_completed i l e) = text_eq i id
completes id e = false

completes-RowsQuiet : (env : Env) (id : Text) → RowsQuiet env (completes id)
unfolding completes
completes-RowsQuiet env id = record {
  task = λ t. refl;
  refreshed = λ i. refl;
  linked = λ i v. refl;
  recalculated = λ v. refl;
  upserted = λ project uid sc f ty. refl;
  insertion = λ pl sc f now b. refl;
  actions = actions-Quiet env {p = completes id} (λ i as'. refl);
}

-- Where the step answers `done`, it has marked the scan as completed, once.
data Completes (p : Event → Bool) : Act Outcome → Type 0 where
  complete :
      {m : Act Outcome}
      → ((tr : List Event) → (m tr).0 ≡ done → count p (m tr).1 ≡ suc (count p tr))
      → Completes p m

Completes-count :
    {p : Event → Bool} {m : Act Outcome}
    → Completes p m
    → (tr : List Event) → (m tr).0 ≡ done
    → count p (m tr).1 ≡ suc (count p tr)
Completes-count (complete h) tr e = h tr e

module _ {p : Event → Bool} where
  Completes-Once : (m : Act Outcome) → Once p m → Completes p m
  Completes-Once m h = complete (λ tr e. Once-count h tr)

  Completes-failed : (e : Text) → Completes p (pure (failed e))
  unfolding pure
  Completes-failed e = complete (λ tr h. cc)

  Completes-bind :
      {A : Type 0} (m : Act A) (f : A → Act Outcome)
      → Quiet p m
      → ((a : A) → Completes p (f a))
      → Completes p (m >>= f)
  unfolding ◌>>=◌
  Completes-bind m f h k =
      complete (λ tr e. Completes-count (k (m tr).0) (m tr).1 e ∙ ap suc (Quiet-count h tr))

  -- A deferred call, behind which the outcome is returned.
  Completes-defer :
      (m : Act Outcome) (d : Event)
      → p d ≡ false
      → Completes p m
      → Completes p (m >>= λ o. emit d >>= λ u. pure o)
  unfolding ◌>>=◌ pure emit
  Completes-defer m d q h =
      complete (λ tr e. Quiet-count (Quiet-emit {p = p} d q) (m tr).1 ∙ Completes-count h tr e)

  Completes-if :
      (b : Bool) (m n : Act Outcome)
      → Completes p m
      → Completes p n
      → Completes p (if b then m else n)
  Completes-if true m n h k = h
  Completes-if false m n h k = k

module _ (env : Env) (p : ScanPayload) where
  fail_scan-Completes : (m l r : Text) → Completes (completes p.scan_id) (fail_scan env p m l r)
  unfolding fail_scan completes
  fail_scan-Completes m l r = search (
    Completes-bind,
    Completes-failed,
    quiets,
    enqueue_scan_notification-Quiet env {p = completes p.scan_id}
        (completes-RowsQuiet env p.scan_id).task,
  )

  complete_scan-Completes :
      (sc : Scanner) (r : RunResult) → Completes (completes p.scan_id) (complete_scan env p sc r)
  unfolding complete_scan completes
  complete_scan-Completes sc r = Completes-Once _ (
      search (
        quiets,
        Once-emit,
        Once-left,
        Once-right,
        text_eq_refl,
        handle_rows-Quiet (completes-RowsQuiet env p.scan_id),
        finish_scan-Quiet (completes-RowsQuiet env p.scan_id),
      ))

  handle_result-Completes :
      (sc : Scanner) (r : RunResult) (o : Option Text)
      → Completes (completes p.scan_id) (handle_result env p sc r o)
  unfolding handle_result
  handle_result-Completes sc r none = complete_scan-Completes sc r
  handle_result-Completes sc r (some e) =
      Completes-if (is_empty r.stdout) _ _ (fail_scan-Completes e r.log _)
        (complete_scan-Completes sc r)

  scan_clone-Completes :
      (sc : Scanner) (c : Cloned) → Completes (completes p.scan_id) (scan_clone env p sc c)
  unfolding scan_clone completes
  scan_clone-Completes sc (clone_failed m l) = fail_scan-Completes m l m
  scan_clone-Completes sc (cloned dir) =
      Completes-bind _ _ (Quiet-asks (λ tr. env.run_scanner tr sc dir)) (λ r.
        Completes-defer (handle_result env p sc r r.err) (removed_dir dir) refl
          (handle_result-Completes sc r r.err))

  scan_target-Completes : (sc : Scanner) → Completes (completes p.scan_id) (scan_target env p sc)
  unfolding scan_target
  scan_target-Completes sc =
      search (quiets, Completes-bind, Completes-if, scan_clone-Completes, handle_result-Completes)

  scan_marked-Completes :
      (sc : Scanner) (o : Option Text) → Completes (completes p.scan_id) (scan_marked env p sc o)
  unfolding scan_marked
  scan_marked-Completes sc none = scan_target-Completes sc
  scan_marked-Completes sc (some e) = Completes-failed _

  scan_with-Completes : (o : Option Scanner) → Completes (completes p.scan_id) (scan_with env p o)
  unfolding scan_with completes
  scan_with-Completes none = Completes-failed _
  scan_with-Completes (some sc) = search (quiets, Completes-bind, scan_marked-Completes)

-- Where the handler reports success to the queue, so that the task is not tried again, it has called
-- `MarkCompleted` for its scan exactly once.
pub handle_scan-done :
    (env : Env) (p : ScanPayload) (tr : List Event)
    → (handle_scan env p tr).0 ≡ done
    → count (completes p.scan_id) (handle_scan env p tr).1 ≡ suc (count (completes p.scan_id) tr)
unfolding handle_scan
handle_scan-done env p tr h =
    Completes-count (scan_with-Completes env p (env.get_scanner p.scanner)) tr h
