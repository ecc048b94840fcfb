-- ===== src/PythonSetup/Observations/Decision.antt =====
-- Which of the places where a version is looked for decides.
use databricks_vscode.Prelude.{
  ◌≡◌, refl, false, ◌||◌, Option, none, some, List, [], ◌∷◌, ◌++◌, Text, same_iff, arith,
}
use databricks_vscode.LmChat.Json.{Json}
use databricks_vscode.PythonSetup.Scoring.{
  VersionSource, pyproject, bundle_yaml, notebook, VersionObservation, source_eq,
  score_serverless_versions,
}
use databricks_vscode.PythonSetup.Scoring.Tally
use databricks_vscode.PythonSetup.Scoring.Tally.{IsOffered}
use databricks_vscode.PythonSetup.Scoring.Leader.{Leads, pyproject_leads}
use databricks_vscode.PythonSetup.Observations.{
  observed, collect_pyproject_version, collect_bundle_versions, collect_notebook_versions,
  collect_observations,
}

other_source :
    (s : VersionSource) (u : Text) (vs : List Text)
    → source_eq s pyproject ≡ false
    → Tally.observed u (observed s vs) pyproject ≡ false
other_source s u [] h = refl
other_source s u (v ∷ vs) h = ground (arith, h, other_source s u vs h)

none_in_bundle :
    (u : Text) (bundle : Option Json)
    → Tally.observed u (collect_bundle_versions bundle) pyproject ≡ false
unfolding collect_bundle_versions
none_in_bundle u none = refl
none_in_bundle u (some b) = other_source bundle_yaml u _ refl

none_in_notebooks :
    (u : Text) (notebooks : List Json)
    → Tally.observed u (collect_notebook_versions notebooks) pyproject ≡ false
unfolding collect_notebook_versions
none_in_notebooks u notebooks = other_source notebook u _ refl

observed-append :
    (u : Text) (os ps : List VersionObservation)
    → Tally.observed u (os ++ ps) pyproject
      ≡ (Tally.observed u os pyproject || Tally.observed u ps pyproject)
observed-append u [] ps = refl
observed-append u (o ∷ os) ps = ground (arith, observed-append u os ps)

-- A version from 1 to 5 that the pyproject file of a project asks for leads the candidates, whatever
-- versions its bundle and its notebooks ask for.
pub pyproject_decides :
    (contents : Option Text) (bundle : Option Json) (notebooks : List Json) (v : Text)
    → IsOffered v
    → collect_pyproject_version contents ≡ record { version = v; source = pyproject } ∷ []
    → Leads v (score_serverless_versions (collect_observations contents bundle notebooks))
unfolding collect_observations
pyproject_decides contents bundle notebooks v offer found =
    let first : VersionObservation = record { version = v; source = pyproject } in
    let rest = collect_bundle_versions bundle ++ collect_notebook_versions notebooks in
    rw found (
      pyproject_leads (first ∷ rest) v offer (ground (arith, same_iff v v)) (λ u other. ground (
        arith,
        other,
        same_iff v u,
        same_iff u v,
        observed-append u (collect_bundle_versions bundle) (collect_notebook_versions notebooks),
        none_in_bundle u bundle,
        none_in_notebooks u notebooks,
      )))
