-- ===== src/Tasks/Scan/Whole.antt =====
-- When a whole scan leaves out the calls that a test selects.
use hen_kai_pan.Prelude.{Bool, false, Option, none, some, ◌≡◌}
use hen_kai_pan.Strings.{Text}
use hen_kai_pan.Tasks.World.{
  Env, Event, Scanner, ScanPayload, RunResult, Cloned, marked_failed, marked_completed, removed_dir,
  marked_running, cloned, clone_failed,
}
use hen_kai_pan.Tasks.Notify.Effects.{enqueue_scan_notification-Quiet}
use hen_kai_pan.Tasks.Effects.{Quiet, quiets}
use hen_kai_pan.Tasks.Scan.{
  fail_scan, complete_scan, handle_result, scan_clone, scan_target, scan_marked, scan_with,
  handle_scan,
}
use hen_kai_pan.Tasks.Scan.Effects.{RowsQuiet, handle_rows-Quiet, finish_scan-Quiet}

-- The test selects no call that changes the status of a scan.
pub record MarksQuiet (p : Event → Bool) : Type 0 where
  pub running : (id : Text) → p (marked_running id) ≡ false
  pub failure : (id m l : Text) → p (marked_failed id m l) ≡ false
  pub completion : (id l : Text) (e : Option Text) → p (marked_completed id l e) ≡ false

module _ {env : Env} {p : Event → Bool} (h : RowsQuiet env p) (k : MarksQuiet p) where
  pub fail_scan-Quiet : (pl : ScanPayload) (m l r : Text) → Quiet p (fail_scan env pl m l r)
  unfolding fail_scan
  fail_scan-Quiet pl m l r =
      search (quiets, k.failure, enqueue_scan_notification-Quiet env {p = p} h.task)

  complete_scan-Quiet :
      (pl : ScanPayload) (sc : Scanner) (r : RunResult) → Quiet p (complete_scan env pl sc r)
  unfolding complete_scan
  complete_scan-Quiet pl sc r =
      search (quiets, k.completion, handle_rows-Quiet h, finish_scan-Quiet h)

  pub handle_result-Quiet :
      (pl : ScanPayload) (sc : Scanner) (r : RunResult) (o : Option Text)
      → Quiet p (handle_result env pl sc r o)
  unfolding handle_result
  handle_result-Quiet pl sc r none = complete_scan-Quiet pl sc r
  handle_result-Quiet pl sc r (some e) = search (quiets, fail_scan-Quiet, complete_scan-Quiet)

  module _ (removal : (dir : Text) → p (removed_dir dir) ≡ false) where
    scan_clone-Quiet :
        (pl : ScanPayload) (sc : Scanner) (c : Cloned) → Quiet p (scan_clone env pl sc c)
    unfolding scan_clone
    scan_clone-Quiet pl sc (clone_failed m l) = fail_scan-Quiet pl m l m
    scan_clone-Quiet pl sc (cloned dir) = search (quiets, removal, handle_result-Quiet)

    scan_target-Quiet : (pl : ScanPayload) (sc : Scanner) → Quiet p (scan_target env pl sc)
    unfolding scan_target
    scan_target-Quiet pl sc = search (quiets, scan_clone-Quiet, handle_result-Quiet)

    scan_marked-Quiet :
        (pl : ScanPayload) (sc : Scanner) (o : Option Text) → Quiet p (scan_marked env pl sc o)
    unfolding scan_marked
    scan_marked-Quiet pl sc none = scan_target-Quiet pl sc
    scan_marked-Quiet pl sc (some e) = search (quiets)

    scan_with-Quiet : (pl : ScanPayload) (o : Option Scanner) → Quiet p (scan_with env pl o)
    unfolding scan_with
    scan_with-Quiet pl none = search (quiets)
    scan_with-Quiet pl (some sc) = search (quiets, k.running, scan_marked-Quiet)

    pub handle_scan-Quiet : (pl : ScanPayload) → Quiet p (handle_scan env pl)
    unfolding handle_scan
    handle_scan-Quiet pl = scan_with-Quiet pl (env.get_scanner pl.scanner)
