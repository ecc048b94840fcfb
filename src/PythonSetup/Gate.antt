-- ===== src/PythonSetup/Gate.antt =====
-- python-setup/utils/pythonSetupGate.ts: whether the uv flow fits the project, and which flow runs.
pub mod Laws
use databricks_vscode.Prelude.{
  Bool, true, false, not, ◌&&◌, ◌||◌, List, [], ◌∷◌, any, if◌then◌else◌,
}
use databricks_vscode.PythonSetup.Detection.{
  PackageManager, DetectionSignal, requirements_txt, constraints_txt, pyproject_pip_only,
  interpreter_venv, PackageManagerDetection, manager_eq, includes_manager,
}

pub data SetupMode : Type 0 where
  auto manual : SetupMode

pub data ReportedSetupMode : Type 0 where
  uv pip fallback_pip : ReportedSetupMode

-- `SUBSTANTIVE_PIP_SIGNALS.includes(s)`
abbrev pub is_substantive : DetectionSignal → Bool
is_substantive requirements_txt = true
is_substantive constraints_txt = true
is_substantive interpreter_venv = true
is_substantive _ = false

abbrev pub is_pip_only : DetectionSignal → Bool
is_pip_only pyproject_pip_only = true
is_pip_only _ = false

-- `COMPETING_MANAGERS.includes(m)`
abbrev pub is_competing : PackageManager → Bool
is_competing PackageManager.pip = true
is_competing PackageManager.poetry = true
is_competing PackageManager.conda = true
is_competing PackageManager.uv = false

unfoldable pub pip_is_pyproject_shape_only : List PackageManager → List DetectionSignal → Bool
pip_is_pyproject_shape_only managers signals =
    includes_manager PackageManager.pip managers
    && (any is_pip_only signals && not (any is_substantive signals))

-- `managers.filter((m) => m !== "pip")`
unfoldable pub without_pip : List PackageManager → List PackageManager
without_pip [] = []
without_pip (m ∷ ms) =
    if manager_eq m PackageManager.pip then without_pip ms else m ∷ without_pip ms

unfoldable pub is_uv_setup_suitable : PackageManagerDetection → Bool
unfolding pip_is_pyproject_shape_only without_pip
is_uv_setup_suitable d =
    let effective =
      if pip_is_pyproject_shape_only d.managers d.signals
      then without_pip d.managers
      else d.managers in
    not (any is_competing effective)

unfoldable pub resolve_setup_mode : SetupMode → PackageManagerDetection → ReportedSetupMode
resolve_setup_mode manual d = fallback_pip
resolve_setup_mode auto d = if is_uv_setup_suitable d then uv else pip
