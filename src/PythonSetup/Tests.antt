-- ===== src/PythonSetup/Tests.antt =====
-- A package without a lockfile, observations of two versions, an invocation and some times.
use databricks_vscode.Prelude.{
  ◌≡◌, true, false, not, none, some, List, [], ◌∷◌, ◌++◌, map, any, codes,
}
use mathlib.Core.List.{Perm}
use databricks_vscode.PythonSetup.Detection.{
  PackageManager, PackageManagerSignals, includes_manager, detect_package_managers,
}
use databricks_vscode.PythonSetup.Detection.Laws.{is_evidence, listed_iff_evidence}
use databricks_vscode.PythonSetup.Gate.{is_uv_setup_suitable}
use databricks_vscode.PythonSetup.Gate.Laws.{is_committed, suitable_iff_not_committed}
use databricks_vscode.PythonSetup.Scoring.{
  pyproject, notebook, ScoredVersion, VersionObservation, tally, score_serverless_versions,
}
use databricks_vscode.PythonSetup.Scoring.Tally.{
  observed, find, Fits, fallback_observation, four, tally-Fits,
}
use databricks_vscode.PythonSetup.Scoring.Ranking.{IsRanked, candidates-IsRanked}
use databricks_vscode.PythonSetup.SetupArgs.{serverless, SetupLocalInvocation}

abbrev project : PackageManagerSignals
project = record {
  has_uv_lock = false;
  has_pyproject_tool_uv = false;
  uv_on_path = true;
  has_poetry_lock = false;
  has_pyproject_tool_poetry = false;
  poetry_on_path = true;
  has_requirements_txt = false;
  has_constraints_txt = false;
  has_pyproject_pip_only = true;
  has_conda_env_file = false;
  has_conda_prefix = false;
  interpreter_source = none;
}

listed_iff_evidence_example :
    includes_manager PackageManager.pip (detect_package_managers project).managers
    ≡ any (is_evidence PackageManager.pip) (detect_package_managers project).signals
listed_iff_evidence_example = listed_iff_evidence PackageManager.pip project

suitable_iff_not_committed_example :
    is_uv_setup_suitable (detect_package_managers project) ≡ not (is_committed project)
suitable_iff_not_committed_example = suitable_iff_not_committed project

abbrev seen_four : List VersionObservation
seen_four =
    record { version = codes "4"; source = pyproject }
    ∷ record { version = codes "04"; source = notebook }
    ∷ record { version = codes "4"; source = pyproject }
    ∷ []

tally-Fits_example :
    (e : ScoredVersion) × (find (codes "4") (tally seen_four) ≡ some e)
    × Fits (observed (codes "4") (seen_four ++ fallback_observation ∷ [])) e
tally-Fits_example = tally-Fits seen_four (codes "4") four

candidates-IsRanked_example :
    IsRanked (score_serverless_versions seen_four)
    × Perm (score_serverless_versions seen_four) (tally seen_four)
    × (map (λ (e : ScoredVersion). e.version) (tally seen_four)
        ≡ codes "1" ∷ codes "2" ∷ codes "3" ∷ codes "4" ∷ codes "5" ∷ [])
candidates-IsRanked_example = candidates-IsRanked seen_four

abbrev invocation : SetupLocalInvocation
invocation = record {
  dry_run = true;
  compute = serverless (codes "5");
  skip_constraints = false;
  skip_dbconnect = true;
  constraint_source_url = some [];
}
