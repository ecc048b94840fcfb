-- ===== src/Shell/Tests.antt =====
-- Quoted arguments with quotes in them.
use databricks_vscode.Prelude.{◌≡◌, ◌≢◌, refl, arith, none, some, [], ◌++◌, codes}
use databricks_vscode.Shell.{cmd, posix, escape_path_argument}
use databricks_vscode.Shell.Readers.{plain, read_posix, bare, read_fish}
use databricks_vscode.Shell.Quoting.{
  read_posix-escape_path_argument, read_fish-escape_path_argument,
}

read_posix-escape_path_argument_example :
    read_posix plain (escape_path_argument (codes "it's; rm") posix ++ codes " x")
    ≡ some (codes "it's; rm", codes " x")
read_posix-escape_path_argument_example =
    read_posix-escape_path_argument (codes "it's; rm") (codes " x") refl

cmd_differs : cmd ≢ posix
cmd_differs = ground arith

read_fish-escape_path_argument_example :
    read_fish bare (escape_path_argument (codes "it's; rm") posix ++ codes " x")
    ≡ some (codes "it's; rm", codes " x")
read_fish-escape_path_argument_example =
    read_fish-escape_path_argument (codes "it's; rm") (codes " x") refl refl

-- Fish halves a double backslash.
halved : read_fish bare (escape_path_argument (codes "a\\\\b") posix) ≡ some (codes "a\\b", [])
unfolding escape_path_argument read_fish
halved = refl

-- A last backslash leaves the quotes unbalanced.
unbalanced : read_fish bare (escape_path_argument (codes "a\\") posix) ≡ none
unfolding escape_path_argument read_fish
unbalanced = refl
