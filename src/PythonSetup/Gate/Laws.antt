-- ===== src/PythonSetup/Gate/Laws.antt =====
-- Which projects the uv flow fits, told from the raw signals.
use databricks_vscode.Prelude.{◌≡◌, Bool, not, ◌||◌, any, arith}
use databricks_vscode.PythonSetup.Detection.{
  PackageManager, InterpreterSource, PackageManagerSignals, source_or_unknown, is_venv,
  includes_manager, fired_signals, uses, listed_managers, detect_package_managers,
}
use databricks_vscode.PythonSetup.Detection.Laws.{fired}
use databricks_vscode.PythonSetup.Gate.{
  is_substantive, is_pip_only, is_competing, without_pip, is_uv_setup_suitable,
}

-- Evidence of poetry or conda, or of someone driving pip directly.
abbrev pub is_committed : PackageManagerSignals → Bool
is_committed s =
    let source = source_or_unknown s.interpreter_source in
    uses PackageManager.poetry s source
    || uses PackageManager.conda s source
    || (s.has_requirements_txt || s.has_constraints_txt || is_venv source)

module _ (s : PackageManagerSignals) (source : InterpreterSource) where
  substantive-fired :
      any is_substantive (fired_signals s source)
      ≡ (s.has_requirements_txt || (s.has_constraints_txt || is_venv source))
  unfolding fired_signals
  substantive-fired = simp fired

  pip_only-fired : any is_pip_only (fired_signals s source) ≡ s.has_pyproject_pip_only
  unfolding fired_signals
  pip_only-fired = simp fired

  competing-listed : any is_competing (listed_managers s source) ≡ (
      uses PackageManager.poetry s source
      || uses PackageManager.conda s source
      || uses PackageManager.pip s source)
  unfolding listed_managers
  competing-listed = ground arith

  competing-without_pip :
      any is_competing (without_pip (listed_managers s source))
      ≡ (uses PackageManager.poetry s source || uses PackageManager.conda s source)
  unfolding listed_managers without_pip
  competing-without_pip = ground arith

  pip-listed :
      includes_manager PackageManager.pip (listed_managers s source)
      ≡ uses PackageManager.pip s source
  unfolding listed_managers
  pip-listed = ground arith

-- After detection the uv flow fits exactly the projects with no evidence of poetry or conda, no
-- requirements or constraints file and no plain virtual environment; a `pyproject.toml` that only
-- looks like a package does not count.
pub suitable_iff_not_committed :
    (s : PackageManagerSignals)
    → is_uv_setup_suitable (detect_package_managers s) ≡ not (is_committed s)
unfolding is_uv_setup_suitable detect_package_managers uses
suitable_iff_not_committed s =
    let source = source_or_unknown s.interpreter_source in
    ground (
      arith,
      substantive-fired s source,
      pip_only-fired s source,
      competing-listed s source,
      competing-without_pip s source,
      pip-listed s source,
    )
