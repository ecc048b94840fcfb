-- ===== src/Shell/Echo.antt =====
-- The text that cmd's `echo` prints.
use databricks_vscode.Prelude.{
  ◌≡◌, refl, Bool, true, false, some, [], ◌∷◌, Text, ◌==◌, arith, Bool-cases, inl, inr,
}
use databricks_vscode.Shell.{double_quote, is_operator, escape_from, escape_cmd_echo_text}
use databricks_vscode.Shell.Readers.{Mode, plain, quoted, read_echo}

abbrev mode_of : Bool → Mode
mode_of true = quoted
mode_of false = plain

read_echo-escape_from :
    (q : Bool) (text : Text) → read_echo (mode_of q) (escape_from q text) ≡ some text
unfolding read_echo escape_from
read_echo-escape_from true [] = refl
read_echo-escape_from false [] = refl
read_echo-escape_from true (c ∷ s) = elim (Bool-cases (c == double_quote)) [
  | inl quote ↦ ground (arith, read_echo-escape_from false s)
  | inr other ↦ ground (arith, read_echo-escape_from true s)
]
read_echo-escape_from false (c ∷ s) = elim (Bool-cases (is_operator c)) [
  | inl operator ↦ ground (arith, read_echo-escape_from false s)
  | inr other ↦ elim (Bool-cases (c == double_quote)) [
    | inl quote ↦ ground (arith, read_echo-escape_from true s)
    | inr plain_char ↦ ground (arith, read_echo-escape_from false s)
  ]
]

-- Apart from `%`, cmd prints the escaped text as the text itself, and no operator in it ends the
-- `echo`.
pub read_echo-escape_cmd_echo_text :
    (text : Text) → read_echo plain (escape_cmd_echo_text text) ≡ some text
unfolding escape_cmd_echo_text
read_echo-escape_cmd_echo_text text = read_echo-escape_from false text
