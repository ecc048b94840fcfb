-- ===== src/Shell/Quoting.antt =====
-- A quoted argument is read back as the argument.
use databricks_vscode.Prelude.{
  ℕ, ◌≡◌, ◌≢◌, refl, true, false, some, [], ◌∷◌, ◌++◌, append_assoc, Text, ◌==◌, arith, Bool-cases,
  has, inl, inr, ==_iff,
}
use databricks_vscode.Shell.{
  ShellKind, cmd, powershell, posix, single_quote, double_quote, reopened_quote, backslash,
  replace_all, escape_path_argument,
}
use databricks_vscode.Shell.Readers.{
  plain, quoted, is_delimiter, read_posix, bare, single, read_fish, read_doubled,
}

-- What follows the word does not go on with it.
abbrev pub EndsWord : Text → Type 0
EndsWord [] = Unit
EndsWord (c ∷ s) = is_delimiter c ≡ true

read_posix-quoted :
    (arg rest : Text)
    → EndsWord rest
    → read_posix quoted (replace_all single_quote reopened_quote arg ++ single_quote ∷ rest)
      ≡ some (arg, rest)
unfolding read_posix replace_all
read_posix-quoted [] [] h = refl
read_posix-quoted [] (c ∷ rest) h = ground arith
read_posix-quoted (c ∷ arg) rest h = elim (Bool-cases (c == single_quote)) [
  | inl quote ↦ rw quote (rw (read_posix-quoted arg rest h) (ground arith))
  | inr other ↦ rw other (rw (read_posix-quoted arg rest h) (rw other))
]

-- A shell that reads single quotes as POSIX says, as sh, bash, zsh and dash do, reads a quoted
-- argument as that argument, whatever characters it has, and goes on behind it, if a delimiter or
-- nothing follows. It is not so in fish, which has the same dialect here: there a backslash inside
-- single quotes can escape.
pub read_posix-escape_path_argument :
    (arg rest : Text)
    → EndsWord rest
    → read_posix plain (escape_path_argument arg posix ++ rest) ≡ some (arg, rest)
unfolding escape_path_argument read_posix
read_posix-escape_path_argument arg rest h =
    rw (append_assoc (replace_all single_quote reopened_quote arg) (single_quote ∷ []) rest)
      (read_posix-quoted arg rest h)

read_fish-quoted :
    (arg rest : Text)
    → has backslash arg ≡ false
    → EndsWord rest
    → read_fish single (replace_all single_quote reopened_quote arg ++ single_quote ∷ rest)
      ≡ some (arg, rest)
unfolding read_fish replace_all
read_fish-quoted [] [] n h = refl
read_fish-quoted [] (c ∷ rest) n h = ground arith
read_fish-quoted (c ∷ arg) rest n h = elim (Bool-cases (c == single_quote)) [
  | inl quote ↦ rw quote (rw (read_fish-quoted arg rest (ground arith) h) (ground arith))
  | inr other ↦ rw other (rw (read_fish-quoted arg rest (ground arith) h) (ground arith))
]

-- Fish, which has the dialect of POSIX here, reads a quoted argument as that argument as well, and
-- goes on behind it, if the argument has no backslash, and a delimiter or nothing follows.
pub read_fish-escape_path_argument :
    (arg rest : Text)
    → has backslash arg ≡ false
    → EndsWord rest
    → read_fish bare (escape_path_argument arg posix ++ rest) ≡ some (arg, rest)
unfolding escape_path_argument read_fish
read_fish-escape_path_argument arg rest n h =
    rw (append_assoc (replace_all single_quote reopened_quote arg) (single_quote ∷ []) rest)
      (read_fish-quoted arg rest n h)

-- The next character is not one more quote.
abbrev pub EndsQuote : ℕ → Text → Type 0
EndsQuote q [] = Unit
EndsQuote q (c ∷ s) = (c == q) ≡ false

read_doubled-quoted :
    (q : ℕ) (arg rest : Text)
    → EndsQuote q rest
    → read_doubled q false (replace_all q (q ∷ q ∷ []) arg ++ q ∷ rest) ≡ some (arg, rest)
unfolding read_doubled replace_all
read_doubled-quoted q [] [] h = ground arith
read_doubled-quoted q [] (c ∷ rest) h = ground arith
read_doubled-quoted q (c ∷ arg) rest h = elim (Bool-cases (c == q)) [
  | inl quote ↦
      rw quote (rw ((==_iff q q).1 refl) (rw (read_doubled-quoted q arg rest h) (ground arith)))
  | inr other ↦ rw other (rw (read_doubled-quoted q arg rest h) (rw other))
]

-- The quote character that each other dialect doubles.
abbrev pub quote_of : ShellKind → ℕ
quote_of cmd = double_quote
quote_of powershell = single_quote
quote_of posix = single_quote

-- PowerShell and cmd read the text behind the opening quote as the argument, and go on behind the
-- closing quote, if no further quote follows it.
pub read_doubled-escape_path_argument :
    (kind : ShellKind) (arg rest : Text)
    → kind ≢ posix
    → EndsQuote (quote_of kind) rest
    → (body : Text) × (escape_path_argument arg kind ++ rest ≡ quote_of kind ∷ body)
      × (read_doubled (quote_of kind) false body ≡ some (arg, rest))
unfolding escape_path_argument
read_doubled-escape_path_argument cmd arg rest n h = (
  replace_all double_quote (double_quote ∷ double_quote ∷ []) arg ++ double_quote ∷ rest,
  rw (
      append_assoc (replace_all double_quote (double_quote ∷ double_quote ∷ []) arg)
        (double_quote ∷ []) rest),
  read_doubled-quoted double_quote arg rest h,
)
read_doubled-escape_path_argument powershell arg rest n h = (
  replace_all single_quote (single_quote ∷ single_quote ∷ []) arg ++ single_quote ∷ rest,
  rw (
      append_assoc (replace_all single_quote (single_quote ∷ single_quote ∷ []) arg)
        (single_quote ∷ []) rest),
  read_doubled-quoted single_quote arg rest h,
)
read_doubled-escape_path_argument posix arg rest n h = absurd (n refl)
