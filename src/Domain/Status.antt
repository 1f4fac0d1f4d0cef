-- ===== src/Domain/Status.antt =====
-- internal/domain/status.go, and the ranking of internal/domain/result.go. The slug of a `Status` is
-- private to its package, so its values are the seven named there.
use odyssey_core_agent.Prelude.{ℕ, String, ℤ, pos, negsuc, ltb, if◌then◌else◌}

pub data Status : Type 0 where
  unknown pending running passed failed skipped errored : Status

-- `Status.String`
unfoldable pub to_string : Status → String
to_string unknown = ""
to_string pending = "pending"
to_string running = "running"
to_string passed = "passed"
to_string failed = "failed"
to_string skipped = "skipped"
to_string errored = "errored"

abbrev pub ExitCode : Type 0
ExitCode = ℤ

abbrev pub exit_success : ExitCode
exit_success = pos 0

abbrev pub exit_failure : ExitCode
exit_failure = pos 1

-- The mark of a step whose process never produced an exit code.
abbrev pub exit_none : ExitCode
exit_none = negsuc 0

unfoldable pub status_rank : Status → ℕ
status_rank errored = 6
status_rank failed = 5
status_rank unknown = 4
status_rank running = 3
status_rank pending = 2
status_rank skipped = 1
status_rank passed = 0

unfoldable pub worst_status : Status → Status → Status
unfolding status_rank
worst_status a b = if ltb (status_rank a) (status_rank b) then b else a
