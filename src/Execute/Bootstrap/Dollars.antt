-- ===== src/Execute/Bootstrap/Dollars.antt =====
-- What a dollar sign at the end of an argument does.
use databricks_vscode.Prelude.{
  ℕ, ◌≡◌, refl, ap, ◌∙◌, false, some, [], ◌∷◌, ◌++◌, Text, codes, has, ◌==◌, append_assoc, arith,
}
use databricks_vscode.Shell.{replace_all, single_quote, backslash}
use databricks_vscode.Execute.Output.{cut}
use databricks_vscode.Execute.Bootstrap.Arguments.{has-append, insert_args_at}
use databricks_vscode.Execute.Bootstrap.{
  dollar, expand, escape_python_string, joined, argv_literal, args_pattern, insert_args,
}

-- No dollar sign, quote or backslash.
abbrev pub IsPlain : Text → Type 0
IsPlain s = (has dollar s ≡ false) × (has single_quote s ≡ false) × (has backslash s ≡ false)

replace_all-absent : (c : ℕ) (by s : Text) → has c s ≡ false → replace_all c by s ≡ s
unfolding replace_all
replace_all-absent c by [] h = refl
replace_all-absent c by (d ∷ s) h = ground (arith, replace_all-absent c by s)

replace_all-last :
    (c d : ℕ) (by s : Text)
    → has c s ≡ false
    → (d == c) ≡ false
    → replace_all c by (s ++ d ∷ []) ≡ s ++ d ∷ []
unfolding replace_all
replace_all-last c d by [] h k = rw k refl
replace_all-last c d by (e ∷ s) h k = ground (arith, replace_all-last c d by s)

expand_behind :
    (m b a p s : Text)
    → has dollar p ≡ false
    → expand m b a (p ++ dollar ∷ single_quote ∷ s) ≡ p ++ (a ++ expand m b a s)
unfolding expand
expand_behind m b a [] s h = refl
expand_behind m b a (c ∷ []) s h = ground arith
expand_behind m b a (c ∷ d ∷ p) s h = ground (arith, expand_behind m b a (d ∷ p) s)

escape_kept : (s : Text) → IsPlain s → escape_python_string s ≡ s
unfolding escape_python_string
escape_kept s h =
    ap (replace_all single_quote (backslash ∷ single_quote ∷ []))
      (replace_all-absent backslash (backslash ∷ backslash ∷ []) s h.2)
    ∙ replace_all-absent single_quote (backslash ∷ single_quote ∷ []) s h.1

escape_dollar : (s : Text) → IsPlain s → escape_python_string (s ++ dollar ∷ []) ≡ s ++ dollar ∷ []
unfolding escape_python_string
escape_dollar s h =
    ap (replace_all single_quote (backslash ∷ single_quote ∷ []))
      (replace_all-last backslash dollar (backslash ∷ backslash ∷ []) s h.2 refl)
    ∙ replace_all-last single_quote dollar (backslash ∷ single_quote ∷ []) s h.1 refl

-- The assignment up to the dollar sign.
abbrev pub head_of : Text → Text → Text
head_of file s = codes "args = ['" ++ (file ++ (codes "', '" ++ s))

literal_of :
    (file s : Text)
    → IsPlain file
    → IsPlain s
    → codes "args = " ++ argv_literal (file ∷ (s ++ dollar ∷ []) ∷ [])
      ≡ head_of file s ++ (dollar ∷ codes "'];")
unfolding argv_literal joined
literal_of file s f h =
    rw (escape_kept file f, escape_dollar s h)
      (rw
        (
          append_assoc file (codes "', '" ++ (s ++ dollar ∷ [])) (codes "'];"),
          append_assoc file (codes "', '" ++ s) (dollar ∷ codes "'];"),
          append_assoc s (dollar ∷ []) (codes "'];"),
        )
        refl)

head_plain : (file s : Text) → IsPlain file → IsPlain s → has dollar (head_of file s) ≡ false
head_plain file s f h = ground (arith, has-append dollar file (codes "', '" ++ s), f.0, h.0)

tail_kept : (m b a : Text) → expand m b a (codes "];") ≡ codes "];"
unfolding expand
tail_kept m b a = refl

-- A file and a last argument that ends in a dollar sign, both without further dollar signs, quotes
-- and backslashes: the sign and the quote behind it give way to all that stands behind `args = []`
-- in the template.
pub trailing_dollar :
    (file s template before after : Text)
    → IsPlain file
    → IsPlain s
    → cut args_pattern template ≡ some (before, after)
    → insert_args (file ∷ (s ++ dollar ∷ []) ∷ []) template
      ≡ before ++ ((head_of file s ++ (after ++ codes "];")) ++ after)
trailing_dollar file s template before after f h k =
    insert_args_at (file ∷ (s ++ dollar ∷ []) ∷ []) template before after k
    ∙ ap (λ (t : Text). before ++ (t ++ after))
        (ap (expand args_pattern before after) (literal_of file s f h)
          ∙ (expand_behind args_pattern before after (head_of file s) (codes "];")
                (head_plain file s f h)
              ∙ ap (λ (t : Text). head_of file s ++ (after ++ t))
                  (tail_kept args_pattern before after)))
