-- ===== src/Shell/Readers.antt =====
-- How each shell reads a quoted word, written from the quoting rules that the comments of
-- shellUtils.ts state, and not from the code that quotes.
use databricks_vscode.Prelude.{
  ℕ, Bool, true, false, ◌||◌, Option, none, some, [], ◌∷◌, Text, ◌==◌, if◌then◌else◌,
}
use databricks_vscode.Shell.{single_quote, double_quote, backslash, caret, is_operator}

-- Characters that end a word outside quotes.
abbrev pub is_delimiter : ℕ → Bool
is_delimiter c = c == b' ' || c == b';' || c == 10

abbrev pub prefixed : ℕ → Option (Text × Text) → Option (Text × Text)
prefixed c none = none
prefixed c (some (word, rest)) = some (c ∷ word, rest)

abbrev pub printed : ℕ → Option Text → Option Text
printed c none = none
printed c (some s) = some (c ∷ s)

pub data Mode : Type 0 where
  plain quoted escaped : Mode

-- A word of sh, bash, zsh and dash: in single quotes every character stands for itself, outside them `\` takes the
-- next character as it is. `none` is an unbalanced quote.
unfoldable pub read_posix : Mode → Text → Option (Text × Text)
read_posix plain [] = some ([], [])
read_posix quoted [] = none
read_posix escaped [] = none
read_posix plain (c ∷ s) =
    let closed = read_posix quoted s in
    let literal = read_posix escaped s in
    let more = prefixed c (read_posix plain s) in
    if c == single_quote
    then closed
    else if c == backslash
    then literal
    else if is_delimiter c
    then some ([], c ∷ s)
    else more
read_posix quoted (c ∷ s) =
    let closed = read_posix plain s in
    let more = prefixed c (read_posix quoted s) in if c == single_quote then closed else more
read_posix escaped (c ∷ s) = prefixed c (read_posix plain s)

pub data FishMode : Type 0 where
  bare bare_escaped single single_escaped : FishMode

-- A word of fish: it differs from POSIX within single quotes, where `\` takes a quote or a `\` behind
-- it as it is, and stands for itself in front of any other character.
unfoldable pub read_fish : FishMode → Text → Option (Text × Text)
read_fish bare [] = some ([], [])
read_fish bare_escaped [] = none
read_fish single [] = none
read_fish single_escaped [] = none
read_fish bare (c ∷ s) =
    let closed = read_fish single s in
    let literal = read_fish bare_escaped s in
    let more = prefixed c (read_fish bare s) in
    if c == single_quote
    then closed
    else if c == backslash
    then literal
    else if is_delimiter c
    then some ([], c ∷ s)
    else more
read_fish bare_escaped (c ∷ s) = prefixed c (read_fish bare s)
read_fish single (c ∷ s) =
    let closed = read_fish bare s in
    let literal = read_fish single_escaped s in
    let more = prefixed c (read_fish single s) in
    if c == single_quote then closed else if c == backslash then literal else more
read_fish single_escaped (c ∷ s) =
    let more = prefixed c (read_fish single s) in
    if c == single_quote || c == backslash then more else prefixed backslash more

-- The rest of a word in which a doubled quote `q` stands for itself, as in PowerShell's single
-- quotes and cmd's double quotes; the flag tells that a `q` was just read.
unfoldable pub read_doubled : ℕ → Bool → Text → Option (Text × Text)
read_doubled q false [] = none
read_doubled q true [] = some ([], [])
read_doubled q false (c ∷ s) =
    let closing = read_doubled q true s in
    let more = prefixed c (read_doubled q false s) in if c == q then closing else more
read_doubled q true (c ∷ s) =
    let more = prefixed q (read_doubled q false s) in if c == q then more else some ([], c ∷ s)

-- What cmd's `echo` prints of its text: outside double quotes `^` takes the next character as it
-- is, and an operator that no `^` protects ends the command (`none`). `%` is not expanded here.
unfoldable pub read_echo : Mode → Text → Option Text
read_echo escaped [] = none
read_echo _ [] = some []
read_echo plain (c ∷ s) =
    let literal = read_echo escaped s in
    let more = printed c (read_echo (if c == double_quote then quoted else plain) s) in
    if c == caret then literal else if is_operator c then none else more
read_echo quoted (c ∷ s) = printed c (read_echo (if c == double_quote then plain else quoted) s)
read_echo escaped (c ∷ s) = printed c (read_echo plain s)
