-- ===== src/BundleRun/RunState.antt =====
-- bundle/run/types.ts and BundleRunStatus.ts: the state of a monitor.
use databricks_vscode.Prelude.{Bool, true, false}

pub data RunState : Type 0 where
  unknown running completed cancelling cancelled error timeout : RunState

abbrev pub is_unknown : RunState → Bool
is_unknown unknown = true
is_unknown _ = false

abbrev pub is_running : RunState → Bool
is_running running = true
is_running _ = false

-- The timer of the constructor, after 60 seconds.
abbrev pub time_out : RunState → RunState
time_out unknown = timeout
time_out other = other
