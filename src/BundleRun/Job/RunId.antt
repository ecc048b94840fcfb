-- ===== src/BundleRun/Job/RunId.antt =====
-- The id that is read from the output.
use databricks_vscode.Prelude.{
  ℕ, ◌≡◌, refl, true, false, ◌&&◌, none, some, [], ◌∷◌, ◌++◌, Text, codes, ◌==◌, is_digit,
  all_digits, arith,
}
use databricks_vscode.BundleRun.Job.{leading_digits, match_here, match_run_id}

-- No slash of the text stands before an `r`.
abbrev pub IsClear : Text → Type 0
IsClear [] = Unit
IsClear (c ∷ []) = Unit
IsClear (c ∷ d ∷ s) = ((c == b'/' && d == b'r') ≡ false) × IsClear (d ∷ s)

-- No digit stands at the start.
abbrev pub EndsDigits : Text → Type 0
EndsDigits [] = Unit
EndsDigits (c ∷ s) = is_digit c ≡ false

leading_digits-append :
    (id rest : Text) → all_digits id ≡ true → EndsDigits rest → leading_digits (id ++ rest) ≡ id
unfolding leading_digits
leading_digits-append [] [] h k = refl
leading_digits-append [] (c ∷ rest) h k = rw k
leading_digits-append (c ∷ id) rest h k = ground (arith, leading_digits-append id rest)

match_here-clear :
    (c d : ℕ) (s : Text) → (c == b'/' && d == b'r') ≡ false → match_here (c ∷ d ∷ s) ≡ none
unfolding match_here
match_here-clear c d [] h = refl
match_here-clear c d (a ∷ []) h = refl
match_here-clear c d (a ∷ b ∷ s) h = ground arith

match_run_id-clear :
    (prefix : Text) (s : Text)
    → IsClear prefix
    → match_run_id (prefix ++ b'/' ∷ s) ≡ match_run_id (b'/' ∷ s)
unfolding match_run_id
match_run_id-clear [] s h = refl
match_run_id-clear (c ∷ []) s h = rw (match_here-clear c b'/' s (ground arith))
match_run_id-clear (c ∷ d ∷ prefix) s h =
    rw (match_here-clear c d (prefix ++ b'/' ∷ s) h.0) (match_run_id-clear (d ∷ prefix) s h.1)

-- The id of the first URL in the output, modern or legacy, is read whole: all its digits, up to
-- the end of the output or the next character that is no digit.
pub match_run_id_url :
    (prefix : Text) (c : ℕ) (id rest : Text)
    → IsClear prefix
    → all_digits (c ∷ id) ≡ true
    → EndsDigits rest
    → (match_run_id (prefix ++ (codes "/runs/" ++ (c ∷ id ++ rest))) ≡ some (c ∷ id))
      × (match_run_id (prefix ++ (codes "/run/" ++ (c ∷ id ++ rest))) ≡ some (c ∷ id))
match_run_id_url prefix c id rest h k l =
    let taken = leading_digits-append (c ∷ id) rest k l in
    (
      rw (match_run_id-clear prefix _ h) (unfold match_run_id match_here in rw taken),
      rw (match_run_id-clear prefix _ h) (unfold match_run_id match_here in rw taken),
    )
