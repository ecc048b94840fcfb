-- ===== src/PythonSetup/Observations/Tests.antt =====
-- Versions in a project.
use databricks_vscode.Prelude.{◌≡◌, refl, some, [], ◌∷◌, Text, codes, decimal, digits_fuel}
use databricks_vscode.LmChat.Events.{split}
use databricks_vscode.LmChat.Json.{Json, num, str, arr, obj, nil, cons, end, member}
use databricks_vscode.Environment.Vars.{env_line_end}
use databricks_vscode.Environment.Proxy.{trim, unique}
use databricks_vscode.PythonSetup.Scoring.{score_serverless_versions, bundle_yaml, pyproject}
use databricks_vscode.PythonSetup.Observations.{
  version_key, find_version, visit, visit_fields, visit_items, normalize_version,
  collect_observations, collect_bundle_versions, collect_pyproject_version, scan_lines,
  is_table_header, key_value, pyproject_value,
}
use databricks_vscode.PythonSetup.Scoring.Tally.{three}
use databricks_vscode.PythonSetup.Scoring.Leader.{Leads}
use databricks_vscode.PythonSetup.Observations.Decision.{pyproject_decides}
use databricks_vscode.PythonSetup.Observations.Walks.{find_version-first}

abbrev tree : Json
tree = obj (
    member (codes "a")
      (arr (
        cons (obj (member version_key (num 4) end))
          (cons (obj (member version_key (str (codes " 5 ")) end)) nil)))
      (member version_key (num 4) end))

walks_agree : find_version tree ≡ some (codes "4")
unfolding visit visit_fields visit_items normalize_version trim decimal digits_fuel
walks_agree = find_version-first tree

in_bundle :
    collect_bundle_versions (some tree)
    ≡ record { version = codes "4"; source = bundle_yaml }
      ∷ record { version = codes "5"; source = bundle_yaml }
      ∷ []
unfolding collect_bundle_versions visit visit_fields visit_items normalize_version trim decimal
    digits_fuel unique
in_bundle = refl

in_pyproject :
    collect_pyproject_version (
      some (
        codes
          "environment_version = 1\n[ tool.databricks . environment ] # here\r\nx = 2\nenvironment_version=\"3\"\n"))
    ≡ record { version = codes "3"; source = pyproject } ∷ []
unfolding collect_pyproject_version split env_line_end scan_lines trim is_table_header key_value
    pyproject_value
in_pyproject = refl

other_table :
    collect_pyproject_version (
      some (
        codes
          "[tool.databricks.environment]\n[tool.databricks.environment.x]\nenvironment_version = \"3\""))
    ≡ []
unfolding collect_pyproject_version split env_line_end scan_lines trim is_table_header key_value
    pyproject_value
other_table = refl

abbrev project_file : Text
project_file = codes "[tool.databricks.environment]\nenvironment_version = '3'\n"

pyproject_decides_example :
    Leads
      (codes "3")
      (score_serverless_versions (collect_observations (some project_file) (some tree) []))
unfolding collect_pyproject_version split env_line_end scan_lines trim is_table_header key_value
    pyproject_value
pyproject_decides_example =
    pyproject_decides (some project_file) (some tree) [] (codes "3") three refl
