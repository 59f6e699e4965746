-- ===== src/Tasks/Scan/Clone.antt =====
-- The clone of a scanned repository is removed.
use hen_kai_pan.Prelude.{
  suc, Bool, true, false, List, [], ◌∷◌, ◌++◌, none, some, ◌≡◌, refl, ap, ◌∙◌,
}
use hen_kai_pan.Strings.{Text, text_eq, text_eq_refl, lit}
use hen_kai_pan.Tasks.World.{
  Env, Event, Scanner, ScanPayload, removed_dir, marked_running, cloned, asks, emit, ◌>>=◌,
}
use hen_kai_pan.Tasks.Effects.{
  count, Once, Once-count, Quiet-count, Quiet-emit, Once-emit, Once-left, Once-right, quiets,
}
use hen_kai_pan.Tasks.Scan.{scan_clone, scan_target, handle_scan}
use hen_kai_pan.Tasks.Scan.Effects.{RowsQuiet, actions-Quiet}
use hen_kai_pan.Tasks.Scan.Whole.{MarksQuiet, handle_result-Quiet}
use hen_kai_pan.Tasks.Scan.Settles.{handle_scan_started}

-- The removal of the directory `dir`.
unfoldable pub removes : Text → Event → Bool
removes dir (removed_dir d) = text_eq d dir
removes dir e = false

rows_quiet : (env : Env) (dir : Text) → RowsQuiet env (removes dir)
unfolding removes
rows_quiet env dir = record {
  task = λ t. refl;
  refreshed = λ i. refl;
  linked = λ i v. refl;
  recalculated = λ v. refl;
  upserted = λ project uid sc f ty. refl;
  insertion = λ pl sc f now b. refl;
  actions = actions-Quiet env {p = removes dir} (λ i as'. refl);
}

marks_quiet : (dir : Text) → MarksQuiet (removes dir)
unfolding removes
marks_quiet dir = record {
  running = λ i. refl;
  failure = λ i m l. refl;
  completion = λ i l e. refl;
}

emit-Removes :
    (dir : Text) (p : ScanPayload) (tr : List Event)
    → count (removes dir) (tr ++ marked_running p.scan_id ∷ []) ≡ count (removes dir) tr
unfolding emit removes
emit-Removes dir p tr =
    Quiet-count (Quiet-emit {p = removes dir} (marked_running p.scan_id) refl) tr

scan_clone-Removes :
    (env : Env) (p : ScanPayload) (sc : Scanner) (dir : Text)
    → Once (removes dir) (scan_clone env p sc (cloned dir))
unfolding scan_clone removes
scan_clone-Removes env p sc dir = search (
  quiets,
  Once-left,
  Once-right,
  Once-emit,
  text_eq_refl,
  handle_result-Quiet (rows_quiet env dir) (marks_quiet dir),
)

-- Where a scan for a known git scanner was marked running and its repository cloned, it removes the clone
-- exactly once, whatever happens in between.
pub handle_scan-removes_clone :
    (env : Env) (p : ScanPayload) (sc : Scanner) (dir : Text) (tr : List Event)
    → env.get_scanner p.scanner ≡ some sc
    → env.mark_running_err (tr ++ marked_running p.scan_id ∷ []) p.scan_id ≡ none
    → text_eq sc.target_type (lit "git") ≡ true
    → env.clone_repo (tr ++ marked_running p.scan_id ∷ []) p ≡ cloned dir
    → count (removes dir) (handle_scan env p tr).1 ≡ suc (count (removes dir) tr)
unfolding scan_target ◌>>=◌ asks
handle_scan-removes_clone env p sc dir tr h k g c = rw (handle_scan_started env p sc tr h k) (
    rw (g) (
      rw c (
        Once-count (scan_clone-Removes env p sc dir) (tr ++ marked_running p.scan_id ∷ [])
        ∙ ap suc (emit-Removes dir p tr))))
