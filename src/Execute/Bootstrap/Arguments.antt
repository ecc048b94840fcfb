-- ===== src/Execute/Bootstrap/Arguments.antt =====
-- Python reads the list of the arguments as them.
use databricks_vscode.Prelude.{
  ℕ, ◌≡◌, refl, ap, ◌∙◌, false, ◌||◌, Option, none, some, List, [], ◌∷◌, ◌++◌, Text, codes, has,
  ◌==◌, All, append_assoc, if◌then◌else◌, arith, Bool-cases, inl, inr,
}
use databricks_vscode.Shell.{single_quote, backslash}
use databricks_vscode.Execute.Output.{cut}
use databricks_vscode.Execute.Bootstrap.{
  dollar, expand, spliced, replace_first, escape_python_string, joined, argv_literal, args_pattern,
  insert_args,
}

-- Where a reader of a Python list of texts in single quotes stands.
pub data Mode : Type 0 where
  in_item escaped behind_item behind_comma at_quote : Mode

abbrev pub prefixed : ℕ → Option (List Text × Text) → Option (List Text × Text)
prefixed c (some (item ∷ items, rest)) = some ((c ∷ item) ∷ items, rest)
prefixed c _ = none

abbrev pub new_item : Option (List Text × Text) → Option (List Text × Text)
new_item none = none
new_item (some (items, rest)) = some ([] ∷ items, rest)

-- A backslash or a quote behind a backslash stands for itself; a line may not end in an item. The
-- result is the items with the text behind the list; `none` is a syntax error, or an escape that
-- means something else.
unfoldable pub read_items : Mode → Text → Option (List Text × Text)
read_items mode [] = none
read_items in_item (c ∷ s) =
    let closed = new_item (read_items behind_item s) in
    let literal = read_items escaped s in
    let more = prefixed c (read_items in_item s) in
    if c == single_quote
    then closed
    else if c == backslash
    then literal
    else if c == 10 || c == 13
    then none
    else more
read_items escaped (c ∷ s) =
    let more = prefixed c (read_items in_item s) in
    if c == single_quote || c == backslash then more else none
read_items behind_item (c ∷ s) =
    let more = read_items behind_comma s in
    if c == b']' then some ([], s) else if c == b',' then more else none
read_items behind_comma (c ∷ s) =
    let more = read_items at_quote s in if c == b' ' then more else none
read_items at_quote (c ∷ s) =
    let more = read_items in_item s in if c == single_quote then more else none

abbrev pub read_list : Text → Option (List Text × Text)
unfolding read_items
read_list [] = none
read_list (c ∷ s) = let items = read_items at_quote s in if c == b'[' then items else none

-- No line ends in the text.
abbrev pub IsLine : Text → Type 0
IsLine [] = Unit
IsLine (c ∷ s) = ((c == 10 || c == 13) ≡ false) × IsLine s

item_read :
    (a t : Text) (items : List Text) (rest : Text)
    → IsLine a
    → read_items behind_item t ≡ some (items, rest)
    → read_items in_item (escape_python_string a ++ single_quote ∷ t) ≡ some (a ∷ items, rest)
unfolding read_items escape_python_string
item_read [] t items rest h k = rw k refl
item_read (c ∷ a) t items rest h k = elim (Bool-cases (c == backslash)) [
  | inl slash ↦ ground (arith, item_read a t items rest h.1 k)
  | inr other ↦ ground (arith, item_read a t items rest h.1 k)
]

next_read :
    (s : Text) (items : List Text) (rest : Text)
    → read_items in_item s ≡ some (items, rest)
    → read_items behind_item (codes ", '" ++ s) ≡ some (items, rest)
unfolding read_items
next_read s items rest h = h

joined_read :
    (a : Text) (argv : List Text) (rest : Text)
    → All IsLine (a ∷ argv)
    → read_items in_item (joined (a ∷ argv) ++ single_quote ∷ b']' ∷ rest) ≡ some (a ∷ argv, rest)
unfolding joined
joined_read a [] rest h = item_read a (b']' ∷ rest) [] rest h.0 (unfold read_items in refl)
joined_read a (b ∷ argv) rest h =
    let later = joined_read b argv rest h.1 in
    rw
      (append_assoc (escape_python_string a) (codes "', '" ++ joined (b ∷ argv))
        (single_quote ∷ b']' ∷ rest))
      (item_read a (codes ", '" ++ (joined (b ∷ argv) ++ single_quote ∷ b']' ∷ rest)) (b ∷ argv)
        rest h.0 (next_read _ _ _ later))

pub argv_literal_read :
    (a : Text) (argv : List Text)
    → All IsLine (a ∷ argv)
    → read_list (argv_literal (a ∷ argv)) ≡ some (a ∷ argv, codes ";")
unfolding read_list argv_literal
argv_literal_read a argv h = unfold read_items in joined_read a argv (codes ";") h

expand_plain : (m b a s : Text) → has dollar s ≡ false → expand m b a s ≡ s
unfolding expand
expand_plain m b a [] h = refl
expand_plain m b a (c ∷ []) h = refl
expand_plain m b a (c ∷ d ∷ s) h = ground (arith, expand_plain m b a (d ∷ s))

pub has-append : (c : ℕ) (s t : Text) → has c (s ++ t) ≡ (has c s || has c t)
has-append c [] t = refl
has-append c (d ∷ s) t = ground (arith, has-append c s t)

escape_plain : (s : Text) → has dollar s ≡ false → has dollar (escape_python_string s) ≡ false
unfolding escape_python_string
escape_plain [] h = refl
escape_plain (c ∷ s) h = elim (Bool-cases (c == backslash)) [
  | inl slash ↦ ground (arith, escape_plain s)
  | inr other ↦ ground (arith, escape_plain s)
]

joined_plain :
    (argv : List Text) → All (λ a. has dollar a ≡ false) argv → has dollar (joined argv) ≡ false
unfolding joined
joined_plain [] h = refl
joined_plain (a ∷ []) h = escape_plain a h.0
joined_plain (a ∷ b ∷ argv) h = ground (
  arith,
  has-append dollar (escape_python_string a) (codes "', '" ++ joined (b ∷ argv)),
  escape_plain a h.0,
  joined_plain (b ∷ argv) h.1,
)

literal_plain :
    (argv : List Text)
    → All (λ a. has dollar a ≡ false) argv
    → has dollar (codes "args = " ++ argv_literal argv) ≡ false
unfolding argv_literal
literal_plain argv h =
    ground (arith, has-append dollar (joined argv) (codes "'];"), joined_plain argv h)

pub insert_args_at :
    (argv : List Text) (template before after : Text)
    → cut args_pattern template ≡ some (before, after)
    → insert_args argv template
      ≡ before ++ (expand args_pattern before after (codes "args = " ++ argv_literal argv) ++ after)
unfolding insert_args replace_first spliced
insert_args_at argv template before after h = rw (h, spliced) refl

-- In a template whose first `args = []` stands between two texts, it is replaced by an assignment
-- of a list that Python reads as the arguments, if there is an argument, none has a line end and
-- none has a dollar sign; the rest of the template is left as it is.
pub arguments_reach_python :
    (a : Text) (argv : List Text) (template before after : Text)
    → cut args_pattern template ≡ some (before, after)
    → All IsLine (a ∷ argv)
    → All (λ x. has dollar x ≡ false) (a ∷ argv)
    → (literal : Text) × (insert_args (a ∷ argv) template
        ≡ before ++ (codes "args = " ++ (literal ++ after)))
      × (read_list literal ≡ some (a ∷ argv, codes ";"))
arguments_reach_python a argv template before after h lines plain = (
  argv_literal (a ∷ argv),
  insert_args_at (a ∷ argv) template before after h
      ∙ ap (λ (s : Text). before ++ (s ++ after))
          (expand_plain args_pattern before after (codes "args = " ++ argv_literal (a ∷ argv))
            (literal_plain (a ∷ argv) plain)),
  argv_literal_read a argv lines,
)
