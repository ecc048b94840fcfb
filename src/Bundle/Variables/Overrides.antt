-- ===== src/Bundle/Variables/Overrides.antt =====
-- What becomes of the overrides when their file is written again.
use databricks_vscode.Prelude.{
  ◌≡◌, refl, ap, ◌∙◌, Option, none, some, [], ◌∷◌, ◌++◌, Text, codes, map,
}
use databricks_vscode.Bundle.Variables.{
  Overrides, without_empty, entries_of, get_variable_overrides, get_file_content, get_env_variables,
}

without_empty-twice : (o : Overrides) → without_empty (without_empty o) ≡ without_empty o
without_empty-twice [] = refl
without_empty-twice ((key, []) ∷ entries) = without_empty-twice entries
without_empty-twice ((key, c ∷ s) ∷ entries) = cc (without_empty-twice entries)

overrides_complete :
    (parse : Text → Option Overrides) (contents : Option Text)
    → without_empty (get_variable_overrides parse contents) ≡ get_variable_overrides parse contents
unfolding get_variable_overrides
overrides_complete parse none = refl
overrides_complete parse (some s) = entries_complete (parse s)
  where
    entries_complete : (o : Option Overrides) → without_empty (entries_of o) ≡ entries_of o
    entries_complete none = refl
    entries_complete (some entries) = without_empty-twice entries

-- The file that is written for the overrides holds them: read again, it gives the same overrides and
-- the same variables for the CLI, where JSON reads back what it has written.
pub overrides_kept :
    (parse : Text → Option Overrides) (stringify : Overrides → Text) (contents : Option Text)
    → parse (stringify (get_variable_overrides parse contents))
      ≡ some (get_variable_overrides parse contents)
    → let again = some (get_file_content parse stringify contents) in
      (get_variable_overrides parse again ≡ get_variable_overrides parse contents)
      × (get_env_variables parse again ≡ get_env_variables parse contents)
unfolding get_variable_overrides get_file_content get_env_variables
overrides_kept parse stringify contents law =
    let same_again = ap entries_of law ∙ overrides_complete parse contents in
    (
      same_again,
      ap (map (λ (entry : Text × Text). (codes "BUNDLE_VAR_" ++ entry.0, entry.1))) same_again,
    )
