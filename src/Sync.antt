-- ===== src/Sync.antt =====
-- packages/databricks-vscode/src/cli/DatabricksCliSyncParser.ts: the output of `databricks sync`.
-- `JSON.parse` with the type that the code gives its result is a parameter; `none` is an error. The
-- state of `WATCHING_FOR_CHANGES` is `watching`.
pub mod Reports
mod Tests
use databricks_vscode.Prelude.{
  ℕ, ◌+◌, Bool, true, false, ◌&&◌, ◌||◌, Option, none, some, List, [], ◌∷◌, ◌++◌, Text, codes,
  length, leb, ◌==◌, starts_with, contains, drop_prefix, decimal, split_lines, if◌then◌else◌,
}

pub data SyncState : Type 0 where
  stopped in_progress watching : SyncState

-- What the callback is told.
pub data Report : Type 0 where
  state_is : SyncState → Report
  workspace_files_disabled repos_files_disabled : Report
  failed : (reason : Text) → Report

pub data Action : Type 0 where
  put delete other_action : Action

-- A missing list of changes is `none`; `finished` tells that `progress` is 1.
pub data Event : Type 0 where
  start : (put_paths delete_paths : Option (List Text)) → Event
  progress : Action → (path : Text) → (finished : Bool) → Event
  complete other_event : Event

-- `written` is the text of the terminal.
pub record Parser : Type 0 where
  pub state : SyncState
  pub reported : List Report
  pub written : Text

-- White space and line ends of JavaScript.
abbrev pub is_space : ℕ → Bool
is_space c =
    (leb 9 c && leb c 13)
    || c == 32
    || c == 160
    || c == 5760
    || (leb 8192 c && leb c 8202)
    || c == 8232
    || c == 8233
    || c == 8239
    || c == 8287
    || c == 12288
    || c == 65279

unfoldable pub trim_start : Text → Text
trim_start [] = []
trim_start (c ∷ s) = let rest = trim_start s in if is_space c then rest else c ∷ s

unfoldable pub trim_end : Text → Text
trim_end [] = []
trim_end (c ∷ s) = elim (trim_end s) [ [] ↦ if is_space c then [] else c ∷ [] | d ∷ r ↦ c ∷ d ∷ r ]

-- The trimmed lines.
unfoldable pub trimmed : List Text → List Text
unfolding trim_start trim_end
trimmed [] = []
trimmed (line ∷ lines) = trim_end (trim_start line) ∷ trimmed lines

-- The characters at which `.` of a regular expression stops.
abbrev pub is_line_terminator : ℕ → Bool
is_line_terminator c = c == 10 || c == 13 || c == 8232 || c == 8233

-- What `.*` takes of a text.
unfoldable pub dots : Text → Text
dots [] = []
dots (c ∷ s) = let rest = c ∷ dots s in if is_line_terminator c then [] else rest

-- The report of `matchForErrors`, if it makes one. A phrase stands where `.*` can reach it.
unfoldable pub match_for_errors : Text → Option Report
unfolding dots
match_for_errors line = elim (drop_prefix (codes "Error: ") line) [
  | none ↦ none
  | some rest ↦
      let reason = dots rest in
      if contains reason (codes "Files in Workspace is disabled")
      then some workspace_files_disabled
      else if contains reason (codes "Files in Repos is disabled")
      then some repos_files_disabled
      else some (failed reason)
]

abbrev pub size_of : Option (List Text) → ℕ
size_of none = 0
size_of (some paths) = length paths

abbrev pub action_name : Action → Text
action_name put = codes "Uploaded"
action_name delete = codes "Deleted"
action_name other_action = []

abbrev pub line_end : Text
line_end = 13 ∷ 10 ∷ []

abbrev pub write : Text → Parser → Parser
write t p = record p { written = p.written ++ t }

abbrev pub report : Report → Parser → Parser
report r p = record p { reported = r ∷ p.reported }

-- The `switch` of `processLine`
unfoldable pub process_event : Event → Parser → Parser
unfolding decimal
process_event (start puts deletes) p =
    write
      (codes "Starting synchronization ("
        ++ (decimal (size_of puts + size_of deletes) ++ (codes " files)" ++ line_end)))
      (record p { state = in_progress })
process_event (progress action path finished) p =
    if finished then write (action_name action ++ (b' ' ∷ (path ++ line_end))) p else p
process_event complete p =
    write (codes "Completed synchronization" ++ line_end) (record p { state = watching })
process_event other_event p = p

module _ (parse : Text → Option Event) where
  -- `processLine` in its `try`
  unfoldable pub process_line : Text → Parser → Parser
  unfolding process_event
  process_line line p = elim (parse line) [ none ↦ p | some e ↦ process_event e p ]

  -- The loop of `processStdout`
  unfoldable pub process_lines : List Text → Parser → Parser
  unfolding process_line match_for_errors
  process_lines [] p = report (state_is p.state) p
  process_lines ([] ∷ lines) p = process_lines lines p
  process_lines ((c ∷ line) ∷ lines) p =
      let next = process_line (c ∷ line) p in
      elim (match_for_errors (c ∷ line)) [
        | none ↦ process_lines lines next
        | some r ↦ report r next
      ]

  unfoldable pub process_stdout : Text → Parser → Parser
  unfolding process_lines trimmed split_lines
  process_stdout data_read p = process_lines (trimmed (split_lines data_read)) p

-- The loop of `processStderr`
unfoldable pub process_error_lines : List Text → Parser → Parser
unfolding match_for_errors
process_error_lines [] p = p
process_error_lines ([] ∷ lines) p = process_error_lines lines p
process_error_lines ((c ∷ line) ∷ lines) p =
    let shown = write ((c ∷ line) ++ line_end) p in
    elim (match_for_errors (c ∷ line)) [
      | none ↦ process_error_lines lines shown
      | some r ↦ report r shown
    ]

unfoldable pub process_stderr : Text → Parser → Parser
unfolding process_error_lines trimmed split_lines
process_stderr data_read p = process_error_lines (trimmed (split_lines data_read)) p
