-- ===== src/BundleRun/Job.antt =====
-- bundle/run/JobRunStatus.ts. Each event runs the monitor from one `await` to the next.
pub mod RunId
pub mod Laws
use databricks_vscode.Prelude.{
  ℕ, zero, suc, ◌+◌, ◌-◌, Bool, true, false, Option, none, some, List, [], ◌∷◌, ◌++◌, Text, codes,
  ◌==◌, ◌&&◌, is_digit, starts_with, if◌then◌else◌,
}
use databricks_vscode.BundleRun.RunState.{
  RunState, unknown, running, completed, cancelling, cancelled, error, is_unknown, is_running,
  time_out,
}

-- The longest run of digits at the start of the text: `\d+` takes it.
unfoldable pub leading_digits : Text → Text
leading_digits [] = []
leading_digits (c ∷ s) = let more = c ∷ leading_digits s in if is_digit c then more else []

abbrev nonempty : Text → Option Text
nonempty [] = none
nonempty (c ∷ s) = some (c ∷ s)

-- `\/(\d+)` at the start of the text.
abbrev id_behind_slash : Text → Option Text
id_behind_slash [] = none
id_behind_slash (c ∷ s) = if c == b'/' then nonempty (leading_digits s) else none

-- `s?\/(\d+)`
abbrev id_behind_run : Text → Option Text
id_behind_run [] = none
id_behind_run (c ∷ s) = if c == b's' then id_behind_slash s else id_behind_slash (c ∷ s)

-- `\/runs?\/(\d+)` at the start of the text.
unfoldable pub match_here : Text → Option Text
unfolding leading_digits
match_here (a ∷ b ∷ c ∷ d ∷ s) =
    if a == b'/' && (b == b'r' && (c == b'u' && d == b'n')) then id_behind_run s else none
match_here _ = none

abbrev or_else : Option Text → Option Text → Option Text
or_else none later = later
or_else (some id) later = some id

-- The capture of the leftmost match in the output.
unfoldable pub match_run_id : Text → Option Text
unfolding match_here
match_run_id [] = none
match_run_id (c ∷ s) = or_else (match_here (c ∷ s)) (match_run_id s)

-- Where `startPolling` is: not started or over, before it has its client, or waiting for the run.
pub data Poller : Type 0 where
  idle getting_client waiting : Poller

-- `cancels` are the calls of `cancel` that wait for the workspace. `D` are the details of a run.
pub record JobRunStatus (D : Type 0) : Type 0 where
  pub run_state : RunState
  pub run_id : Option Text
  pub details : Option D
  pub poller : Poller
  pub cancels : ℕ

abbrev pub new : {D : Type 0} → JobRunStatus D
new = record { run_state = unknown; run_id = none; details = none; poller = idle; cancels = 0 }

pub data Event (D : Type 0) : Type 0 where
  output : Text → Event D
  client_ready client_failed : Event D
  progress : D → Event D
  finished wait_failed : Event D
  cancel_called cancel_done cancel_failed : Event D
  timer : Event D

module _ {D : Type 0} where
  -- The first part of `startPolling` runs in `parseId`, up to the call for a client.
  found_id : Option Text → JobRunStatus D → JobRunStatus D
  found_id none s = s
  found_id (some id) s = record s { run_id = some id; poller = getting_client }

  unfoldable pub parse_id : Text → JobRunStatus D → JobRunStatus D
  unfolding found_id match_run_id
  parse_id out s = elim s.run_id [
    | some id ↦ s
    | none ↦ if is_unknown s.run_state then found_id (match_run_id out) s else s
  ]

  unfoldable pub cancel : JobRunStatus D → JobRunStatus D
  cancel s = elim s.run_id [
    | none ↦ record s { run_state = cancelled }
    | some id ↦
        if is_running s.run_state
        then record s { run_state = cancelling; cancels = s.cancels + 1 }
        else record s { run_state = cancelled }
  ]

  -- A poller event comes only where `startPolling` waits for it, and the end of a cancellation only
  -- while one waits.
  at_poller : Poller → Event D → JobRunStatus D → JobRunStatus D
  at_poller getting_client client_ready s = record s { run_state = running; poller = waiting }
  at_poller getting_client client_failed s = record s { poller = idle }
  at_poller waiting (progress d) s = record s { details = some d }
  at_poller waiting finished s = record s { run_state = completed; poller = idle }
  at_poller waiting wait_failed s = record s { run_state = error; poller = idle }
  at_poller _ _ s = s

  at_cancel : ℕ → Event D → JobRunStatus D → JobRunStatus D
  at_cancel (suc n) cancel_done s = record s { run_state = cancelled; cancels = n }
  at_cancel (suc n) cancel_failed s = record s { cancels = n }
  at_cancel _ _ s = s

  unfoldable pub step : Event D → JobRunStatus D → JobRunStatus D
  unfolding at_poller at_cancel
  step (output out) s = parse_id out s
  step cancel_called s = cancel s
  step cancel_done s = at_cancel s.cancels cancel_done s
  step cancel_failed s = at_cancel s.cancels cancel_failed s
  step timer s = record s { run_state = time_out s.run_state }
  step client_ready s = at_poller s.poller client_ready s
  step client_failed s = at_poller s.poller client_failed s
  step (progress d) s = at_poller s.poller (progress d) s
  step finished s = at_poller s.poller finished s
  step wait_failed s = at_poller s.poller wait_failed s

  unfoldable pub run : List (Event D) → JobRunStatus D → JobRunStatus D
  run [] s = s
  run (e ∷ es) s = run es (step e s)
