-- ===== src/Shell.antt =====
-- packages/databricks-vscode/src/utils/shellUtils.ts: command lines for a terminal, in the dialect
-- of its shell. A text is the list of its UTF-16 code units.
pub mod Readers
pub mod Quoting
pub mod Echo
mod Tests
use databricks_vscode.Prelude.{
  ℕ, Bool, true, false, ◌||◌, List, [], ◌∷◌, ◌++◌, Text, codes, same, has, ◌==◌, if◌then◌else◌,
}

pub data ShellKind : Type 0 where
  cmd powershell posix : ShellKind

abbrev pub double_quote : ℕ
double_quote = 34

abbrev pub single_quote : ℕ
single_quote = 39

abbrev pub backslash : ℕ
backslash = 92

abbrev pub caret : ℕ
caret = 94

-- `text.replaceAll(c, by)` for a single character `c`
unfoldable pub replace_all : ℕ → Text → Text → Text
replace_all c by [] = []
replace_all c by (d ∷ s) = (if d == c then by else d ∷ []) ++ replace_all c by s

unfoldable pub clear_cmd : ShellKind → Text
clear_cmd cmd = codes "cls"
clear_cmd powershell = codes "Clear-Host"
clear_cmd posix = codes "clear"

unfoldable pub read_cmd : ShellKind → Text
read_cmd cmd = codes "pause"
read_cmd powershell = codes "Read-Host"
read_cmd posix = codes "read discard"

unfoldable pub command_separator : ShellKind → Text
command_separator cmd = codes "& "
command_separator _ = codes "; "

-- '\''
abbrev pub reopened_quote : Text
reopened_quote = single_quote ∷ backslash ∷ single_quote ∷ single_quote ∷ []

unfoldable pub escape_path_argument : Text → ShellKind → Text
unfolding replace_all
escape_path_argument arg cmd =
    double_quote
    ∷ (replace_all double_quote (double_quote ∷ double_quote ∷ []) arg ++ double_quote ∷ [])
escape_path_argument arg powershell =
    single_quote
    ∷ (replace_all single_quote (single_quote ∷ single_quote ∷ []) arg ++ single_quote ∷ [])
escape_path_argument arg posix =
    single_quote ∷ (replace_all single_quote reopened_quote arg ++ single_quote ∷ [])

unfoldable pub escape_executable_for_terminal : Text → ShellKind → Text
escape_executable_for_terminal exe powershell = codes "& " ++ escape_path_argument exe powershell
escape_executable_for_terminal exe cmd = escape_path_argument exe cmd
escape_executable_for_terminal exe posix = escape_path_argument exe posix

unfoldable pub escape_path_argument_for_unknown_shell : Text → Text
unfolding replace_all
escape_path_argument_for_unknown_shell arg =
    double_quote
    ∷ (replace_all double_quote (backslash ∷ double_quote ∷ []) arg ++ double_quote ∷ [])

-- `[%!]` occurs in the text.
unfoldable pub has_cmd_unsafe_chars : Text → Bool
has_cmd_unsafe_chars arg = has b'%' arg || has b'!' arg

-- The class `[\^&|<>()]` of the regular expression.
abbrev pub is_operator : ℕ → Bool
is_operator c =
    c == caret || c == b'&' || c == b'|' || c == b'<' || c == b'>' || c == b'(' || c == b')'

-- The global match of `"[^"]*"?|[\^&|<>()]`: the flag tells whether the first branch has begun and
-- its closing quote is still to come. Such a match is emitted unchanged, an operator with a `^`.
unfoldable pub escape_from : Bool → Text → Text
escape_from quoted [] = []
escape_from true (c ∷ s) = c ∷ escape_from (if c == double_quote then false else true) s
escape_from false (c ∷ s) =
    (if is_operator c then caret ∷ c ∷ [] else c ∷ []) ++ escape_from (c == double_quote) s

unfoldable pub escape_cmd_echo_text : Text → Text
unfolding escape_from
escape_cmd_echo_text text = escape_from false text

unfoldable pub echo_line : Text → ShellKind → Text
echo_line [] cmd = codes "echo."
echo_line (c ∷ s) cmd = codes "echo " ++ escape_cmd_echo_text (c ∷ s)
echo_line line powershell = codes "Write-Host " ++ escape_path_argument line powershell
echo_line line posix = codes "printf '%s\\n' " ++ escape_path_argument line posix
