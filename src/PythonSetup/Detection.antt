-- ===== src/PythonSetup/Detection.antt =====
-- language/packageManagerDetection.ts: `detectPackageManagers`. A missing signal is `false`.
pub mod Laws
use databricks_vscode.Prelude.{
  Bool, true, false, ◌||◌, Option, none, some, List, [], ◌∷◌, ◌++◌, if◌then◌else◌,
}

pub data PackageManager : Type 0 where
  uv poetry pip conda : PackageManager

pub data PrimaryManager : Type 0 where
  known : PackageManager → PrimaryManager
  unknown : PrimaryManager

pub data InterpreterSource : Type 0 where
  uv poetry conda system venv unknown : InterpreterSource

pub data DetectionSignal : Type 0 where
  uv_lock pyproject_tool_uv uv_on_path interpreter_uv : DetectionSignal
  poetry_lock pyproject_tool_poetry poetry_on_path interpreter_poetry : DetectionSignal
  requirements_txt constraints_txt pyproject_pip_only interpreter_venv : DetectionSignal
  environment_yml conda_prefix interpreter_conda : DetectionSignal

pub record PackageManagerSignals : Type 0 where
  pub has_uv_lock : Bool
  pub has_pyproject_tool_uv : Bool
  pub uv_on_path : Bool
  pub has_poetry_lock : Bool
  pub has_pyproject_tool_poetry : Bool
  pub poetry_on_path : Bool
  pub has_requirements_txt : Bool
  pub has_constraints_txt : Bool
  pub has_pyproject_pip_only : Bool
  pub has_conda_env_file : Bool
  pub has_conda_prefix : Bool
  pub interpreter_source : Option InterpreterSource

pub record PackageManagerDetection : Type 0 where
  pub managers : List PackageManager
  pub primary : PrimaryManager
  pub signals : List DetectionSignal
  pub has_lockfile : Bool
  pub interpreter_source : InterpreterSource

abbrev pub manager_eq : PackageManager → PackageManager → Bool
manager_eq uv uv = true
manager_eq poetry poetry = true
manager_eq pip pip = true
manager_eq conda conda = true
manager_eq _ _ = false

abbrev pub source_or_unknown : Option InterpreterSource → InterpreterSource
source_or_unknown none = InterpreterSource.unknown
source_or_unknown (some s) = s

abbrev pub is_uv : InterpreterSource → Bool
is_uv InterpreterSource.uv = true
is_uv _ = false

abbrev pub is_poetry : InterpreterSource → Bool
is_poetry InterpreterSource.poetry = true
is_poetry _ = false

abbrev pub is_conda : InterpreterSource → Bool
is_conda InterpreterSource.conda = true
is_conda _ = false

abbrev pub is_venv : InterpreterSource → Bool
is_venv venv = true
is_venv _ = false

-- `managers.includes(m)`
abbrev pub includes_manager : PackageManager → List PackageManager → Bool
includes_manager m [] = false
includes_manager m (n ∷ ns) = manager_eq n m || includes_manager m ns

-- `if (condition) { list.push(x); }`, with the pushes that follow
unfoldable pub push_if {ℓ} : {A : Type ℓ} → Bool → A → List A → List A
push_if true x later = x ∷ later
push_if false x later = later

unfoldable pub fired_signals : PackageManagerSignals → InterpreterSource → List DetectionSignal
fired_signals s source = push_if s.has_uv_lock uv_lock (
    push_if s.has_pyproject_tool_uv pyproject_tool_uv (
      push_if s.uv_on_path uv_on_path (
        push_if (is_uv source) interpreter_uv (
          push_if s.has_poetry_lock poetry_lock (
            push_if s.has_pyproject_tool_poetry pyproject_tool_poetry (
              push_if s.poetry_on_path poetry_on_path (
                push_if (is_poetry source) interpreter_poetry (
                  push_if s.has_requirements_txt requirements_txt (
                    push_if s.has_constraints_txt constraints_txt (
                      push_if s.has_pyproject_pip_only pyproject_pip_only (
                        push_if (is_venv source) interpreter_venv (
                          push_if s.has_conda_env_file environment_yml (
                            push_if s.has_conda_prefix conda_prefix
                              (push_if (is_conda source) interpreter_conda []))))))))))))))

unfoldable pub uses : PackageManager → PackageManagerSignals → InterpreterSource → Bool
uses uv s source = s.has_uv_lock || s.has_pyproject_tool_uv || is_uv source
uses poetry s source = s.has_poetry_lock || s.has_pyproject_tool_poetry || is_poetry source
uses conda s source = s.has_conda_env_file || s.has_conda_prefix || is_conda source
uses pip s source =
    s.has_requirements_txt || s.has_constraints_txt || s.has_pyproject_pip_only || is_venv source

-- `PRIMARY_PRIORITY.find((m) => managers.includes(m)) ?? "unknown"`
unfoldable pub find_primary : List PackageManager → List PackageManager → PrimaryManager
find_primary [] managers = PrimaryManager.unknown
find_primary (m ∷ ms) managers =
    if includes_manager m managers then known m else find_primary ms managers

abbrev pub primary_priority : List PackageManager
primary_priority =
    PackageManager.uv ∷ PackageManager.poetry ∷ PackageManager.conda ∷ PackageManager.pip ∷ []

unfoldable pub listed_managers : PackageManagerSignals → InterpreterSource → List PackageManager
unfolding push_if
listed_managers s source = push_if (uses PackageManager.uv s source) PackageManager.uv (
    push_if (uses PackageManager.poetry s source) PackageManager.poetry (
      push_if (uses PackageManager.conda s source) PackageManager.conda
        (push_if (uses PackageManager.pip s source) PackageManager.pip [])))

unfoldable pub detect_package_managers : PackageManagerSignals → PackageManagerDetection
unfolding listed_managers fired_signals find_primary
detect_package_managers s =
    let source = source_or_unknown s.interpreter_source in
    let managers = listed_managers s source in
    record {
      managers = managers;
      primary = find_primary primary_priority managers;
      signals = fired_signals s source;
      has_lockfile = s.has_uv_lock || s.has_poetry_lock;
      interpreter_source = source;
    }
