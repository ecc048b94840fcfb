-- ===== src/Cli/Spawn/Laws.antt =====
-- What a command line of Windows holds.
use databricks_vscode.Prelude.{
  ℕ, ◌≡◌, refl, ap, ◌∙◌, Bool, true, false, Option, none, some, List, [], ◌∷◌, ◌++◌, Text, map, has,
  All, ◌==◌, arith, if◌then◌else◌, append_assoc,
}
use databricks_vscode.Cli.Spawn.{quoted, join, verbatim_line}

abbrev pub more : ℕ → Option (List Text) → Option (List Text)
more c (some (s ∷ ss)) = some ((c ∷ s) ∷ ss)
more c _ = none

abbrev pub next : Option (List Text) → Option (List Text)
next (some ss) = some ([] ∷ ss)
next none = none

-- The words of a line of quoted words with spaces between them; `inside` tells that a word is open.
unfoldable pub read_words : (inside : Bool) → Text → Option (List Text)
read_words false [] = some []
read_words true [] = none
read_words true (c ∷ s) =
    let outside = read_words false s in
    let within = read_words true s in if c == b'"' then next outside else more c within
read_words false (c ∷ s) =
    let outside = read_words false s in
    let within = read_words true s in
    if c == b'"' then within else if c == b' ' then outside else none

abbrev pub drop_last : Text → Text
drop_last [] = []
drop_last (c ∷ []) = []
drop_last (c ∷ d ∷ s) = c ∷ drop_last (d ∷ s)

-- `cmd.exe /c` takes off the first and the last quote of a line.
abbrev pub strip : Text → Text
strip [] = []
strip (c ∷ s) = drop_last s

drop_last-snoc : (s : Text) (c : ℕ) → drop_last (s ++ c ∷ []) ≡ s
drop_last-snoc [] c = refl
drop_last-snoc (d ∷ []) c = refl
drop_last-snoc (d ∷ e ∷ s) c = cc (drop_last-snoc (e ∷ s) c)

-- An open word goes up to its closing quote.
read_words-word :
    (s rest : Text) (ss : List Text)
    → has b'"' s ≡ false
    → read_words false rest ≡ some ss
    → read_words true (s ++ b'"' ∷ rest) ≡ some (s ∷ ss)
unfolding read_words
read_words-word [] rest ss h k = ground (arith, k)
read_words-word (c ∷ s) rest ss h k = ground (arith, h, read_words-word s rest ss (ground arith) k)

read_words-join :
    (ss : List Text)
    → All (λ s. has b'"' s ≡ false) ss
    → read_words false (join (map quoted ss)) ≡ some ss
unfolding read_words
read_words-join [] h = refl
read_words-join (s ∷ []) (h, _) = read_words-word s [] [] h refl
read_words-join (s ∷ t ∷ ss) (h, hs) =
    rw (append_assoc s (b'"' ∷ []) (b' ' ∷ join (map quoted (t ∷ ss)))) (
      read_words-word s (b' ' ∷ join (map quoted (t ∷ ss))) (t ∷ ss) h
        (read_words-join (t ∷ ss) hs))

-- On Windows, the one argument that `cmd.exe` gets behind `/d /c` holds the command and its
-- arguments, each in quotes: without its outer quotes it reads back as them, blanks and all, where
-- none of them has a quote in it.
pub read_words-verbatim_line :
    (command : Text) (args : List Text)
    → has b'"' command ≡ false
    → All (λ s. has b'"' s ≡ false) args
    → read_words false (strip (verbatim_line command args)) ≡ some (command ∷ args)
unfolding verbatim_line read_words
read_words-verbatim_line command args h hs =
    let words = join (map quoted args) in
    ap (read_words false) (
      drop_last-snoc (quoted command ++ b' ' ∷ words) b'"'
      ∙ ap (λ t. b'"' ∷ t) (append_assoc command (b'"' ∷ []) (b' ' ∷ words)))
    ∙ read_words-word command (b' ' ∷ words) args h (read_words-join args hs)
