-- ===== src/Execute/Main/World.antt =====
-- The surroundings of a run of `main` of cli.ts: the process, the file system, the Databricks CLI,
-- the SDK, and the functions on texts that are not modelled. A call's answer can depend on all
-- that has been done before.
use databricks_vscode.Prelude.{Bool, Option, List, Text}
use databricks_vscode.Execute.Paths.{PathLibrary}
use databricks_vscode.Execute.Frames.{Frame, ErrorEnvelope}
use databricks_vscode.Execute.Main.Call.{
  Members, Reply, Closed, Command, Submission, Details, Act, Done,
}

-- What `main` reads of the output of `bundle validate`; the cast of a member to a text is
-- taken to be true.
pub record Config : Type 0 where
  pub mode : Option Text
  pub host : Option Text
  pub workspace_host : Option Text
  pub workspace_id : Option Text
  pub other_workspace_id : Option Text
  pub file_path : Option Text
  pub compute_id : Option Text
  pub cluster_id : Option Text

-- What a command's result can be.
pub data Results : Type 0 where
  text_result : Text → Results
  error_result : (cause summary : Text) → Results
  other_result : (printed : Text) → Results

pub record NotebookOutput : Type 0 where
  pub result : Option Text
  pub truncated : Bool
  pub error : Option Text
  pub error_trace : Option Text

-- The streams that a notebook's exported page holds.
pub record Extracted : Type 0 where
  pub stdout : Text
  pub stderr : Text
  pub error : Text

pub record World : Type 0 where
  -- the process
  pub bundle_target : Option Text
  pub env_host : Option Text
  pub env_token : Option Text
  pub current_dir : Text
  -- `path.resolve`, `path.extname` and the directories from one up to the root
  pub resolve : Text → Text
  pub extension : Text → Text
  pub dirname : Text → Text
  pub ancestors : Text → List Text
  pub path : PathLibrary
  -- the file system; `stat` says whether it is a file
  pub stat : Text → Reply Bool
  pub first_line : Text → Reply (Option Text)
  pub accessible : (dir name : Text) → Bool
  -- the Databricks CLI, and `JSON.parse` on its output
  pub spawn : Command → Members → List Act → Reply Closed
  pub parse_config : Text → Option Config
  pub parse_token : Text → Option (Option Text)
  -- the SDK
  pub cluster_by_id : Text → List Act → Reply Text
  pub cluster_by_name : Text → List Act → Reply (Option Text)
  pub cluster_state : Text → List Act → Reply Text
  pub start : Text → List Act → Reply Done
  pub create_context : Text → List Act → Reply Text
  pub execute : (context command : Text) → List Act → Bool × Reply Results
  pub destroy : Text → List Act → Reply Done
  pub submit_run : Submission → List Act → Reply Details
  pub polls : List Act → List (Bool × Reply Details)
  pub cancel_run : List Act → Reply Done
  pub export_run : List Act → Reply (List (Option Text))
  pub run_output : List Act → Reply NotebookOutput
  pub is_cancelled : List Act → Bool
  -- `runInit` of init.ts
  pub run_init : List Text → List Act → Reply Done
  -- functions on texts
  pub to_upper_case : Text → Text
  pub extract : Text → Option Extracted
  pub html_to_plain_text : Text → Text
  pub parse_envelope : Text → Option ErrorEnvelope
  pub trim : Text → Text
  pub parse_error_result : (cause summary : Text) → List Frame
  pub stringify : Members → Text
  pub template : Text
