-- ===== src/Tasks/Severity.antt =====
-- Severities and their deadlines: `normalizeSeverity` and `slaDeadlineFor` of internal/tasks/scan_run.go.
-- A time is a number of seconds.
use hen_kai_pan.Prelude.{
  ℕ, ◌+◌, ◌*◌, Bool, true, false, ◌||◌, if◌then◌else◌, Option, none, some, ◌≡◌, ◌↔◌, refl, arith,
}
use hen_kai_pan.Strings.{Text, lit, text_eq, text_eq_iff}

-- `validSeverities[s]`
unfoldable pub is_valid_severity : Text → Bool
is_valid_severity s =
    text_eq s (lit "critical")
    || text_eq s (lit "high")
    || text_eq s (lit "medium")
    || text_eq s (lit "low")
    || text_eq s (lit "info")

unfoldable pub normalize_severity : Text → Text
normalize_severity s = if is_valid_severity s then s else lit "info"

-- `time.Hour`
abbrev hour : ℕ
hour = 3600

-- The allowance of a severity, where it has one.
sla_allowance : Text → Option ℕ
sla_allowance severity =
    if text_eq severity (lit "critical")
    then some (24 * hour)
    else if text_eq severity (lit "high")
    then some (72 * hour)
    else if text_eq severity (lit "medium")
    then some (30 * 24 * hour)
    else if text_eq severity (lit "low")
    then some (90 * 24 * hour)
    else none

deadline : ℕ → Option ℕ → Option ℕ
deadline now none = none
deadline now (some d) = some (now + d)

unfoldable pub sla_deadline_for : Text → ℕ → Option ℕ
unfolding sla_allowance deadline
sla_deadline_for severity now = deadline now (sla_allowance severity)

is_valid_severity-info : is_valid_severity (lit "info") ≡ true
unfolding is_valid_severity text_eq
is_valid_severity-info = refl

-- Whatever a scanner reports, the stored severity is valid, and a valid one is stored as it is.
pub normalize_severity_lem :
    (s : Text)
    → (is_valid_severity (normalize_severity s) ≡ true)
      × (normalize_severity (normalize_severity s) ≡ normalize_severity s)
unfolding normalize_severity
normalize_severity_lem s = ground (arith, is_valid_severity-info)

-- No other severity is spelled like info.
info_differs :
    (text_eq (lit "info") (lit "critical") ≡ false)
    × (text_eq (lit "info") (lit "high") ≡ false)
    × (text_eq (lit "info") (lit "medium") ≡ false)
    × (text_eq (lit "info") (lit "low") ≡ false)
unfolding text_eq
info_differs = (refl, refl, refl, refl)

-- A finding of normalised severity has no deadline exactly where it is of severity info.
pub sla_deadline_for_lem :
    (s : Text) (now : ℕ)
    → ((sla_deadline_for (normalize_severity s) now ≡ none) ↔ (normalize_severity s ≡ lit "info"))
unfolding sla_deadline_for normalize_severity is_valid_severity sla_allowance deadline
sla_deadline_for_lem s now =
    let (critical, high, medium, low) = info_differs in
    ground (
      arith,
      is_valid_severity-info,
      critical,
      high,
      medium,
      low,
      text_eq_iff s (lit "info"),
      text_eq_iff s (lit "low"),
      text_eq_iff s (lit "medium"),
      text_eq_iff s (lit "high"),
      text_eq_iff s (lit "critical"),
    )
