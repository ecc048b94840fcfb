-- ===== src/Cli/Spawn.antt =====
-- cli/cliProcess.ts: how a child process is spawned, and how its tree is killed. What the operating
-- system does is a parameter.
pub mod Laws
use databricks_vscode.Prelude.{
  ℕ, zero, suc, Bool, true, false, Option, none, some, List, [], ◌∷◌, ◌++◌, Text, codes, map,
  if◌then◌else◌,
}

pub record Command : Type 0 where
  pub cmd : Text
  pub args : List Text
  pub windows_verbatim_arguments : Bool

abbrev pub quoted : Text → Text
quoted s = b'"' ∷ s ++ b'"' ∷ []

-- `join(" ")`
abbrev pub join : List Text → Text
join [] = []
join (s ∷ []) = s
join (s ∷ t ∷ ss) = s ++ b' ' ∷ join (t ∷ ss)

-- The template of the one argument of `cmd.exe`.
unfoldable pub verbatim_line : Text → List Text → Text
verbatim_line command args = b'"' ∷ quoted command ++ b' ' ∷ join (map quoted args) ++ b'"' ∷ []

unfoldable pub get_escaped_command_and_args : Text → List Text → (windows : Bool) → Command
unfolding verbatim_line
get_escaped_command_and_args command args true = record {
  cmd = codes "cmd.exe";
  args = codes "/d" ∷ codes "/c" ∷ verbatim_line command args ∷ [];
  windows_verbatim_arguments = true;
}
get_escaped_command_and_args command args false = record {
  cmd = command;
  args = args;
  windows_verbatim_arguments = false;
}

-- `NodeJS.Signals`, of which the code uses two.
pub data Signal : Type 0 where
  sigterm sigkill : Signal

-- What is done to kill the tree: `taskkill` for a process, a signal to the group of a process, and a
-- signal to the child itself.
pub data Kill : Type 0 where
  taskkill : (pid : ℕ) → Kill
  group : (pid : ℕ) → Signal → Kill
  direct : Signal → Kill

-- `kill` tells whether the group takes the signal; otherwise the call throws. A pid of 0 is falsy.
unfoldable pub terminate_process_tree :
    (kill : ℕ → Signal → Bool) → (windows : Bool) → (pid : Option ℕ) → Signal → List Kill
terminate_process_tree kill true (some (suc n)) signal = taskkill (suc n) ∷ []
terminate_process_tree kill false (some (suc n)) signal =
    group (suc n) signal ∷ (if kill (suc n) signal then [] else direct signal ∷ [])
terminate_process_tree kill _ _ signal = direct signal ∷ []
