-- ===== src/Features/Tests.antt =====
-- Two steps, one accepted and the other optional.
use databricks_vscode.Prelude.{◌≡◌, refl, Bool, true, false, none, some, List, [], ◌∷◌, Text, codes}
use databricks_vscode.Features.{
  FeatureStepState, Change, reject_step, accept_step, new, run, find_step, set_step, all_available,
}
use databricks_vscode.Features.Steps.{told_of, last_told}
use databricks_vscode.Features.Availability.{Sound, availability_known}

abbrev differ : FeatureStepState → FeatureStepState → Bool
differ s t = false

abbrev changes : List (Change differ)
changes =
    accept_step (codes "a") none none none
    ∷ reject_step (codes "x") (codes "unknown") none none none
    ∷ reject_step (codes "b") (codes "later") none none (some true)
    ∷ []

abbrev both : List Text
both = codes "a" ∷ codes "b" ∷ []

availability_known_example :
    Sound differ both (run differ changes (new both))
    × (told_of (find_step (codes "b") (run differ changes (new both)).steps)
        ≡ last_told differ changes (codes "b") (some (false, none)))
availability_known_example = availability_known differ both changes (codes "b")

-- The optional step is not available, and the feature is.
optional_step :
    (told_of (find_step (codes "b") (run differ changes (new both)).steps)
      ≡ some (false, some true))
    × ((run differ changes (new both)).available ≡ true)
unfolding run new find_step set_step all_available
optional_step = (refl, refl)
