-- ===== src/PythonSetup/Detection/Laws.antt =====
-- What the fired signals, the listed managers and the primary manager say of one another.
use databricks_vscode.Prelude.{
  ◌≡◌, refl, Bool, true, false, ◌&&◌, ◌||◌, List, [], ◌∷◌, any, sym, ◌∙◌, arith, ◌⊎◌,
}
use mathlib.Core.Bool.{and-true, and-false, false-or, or-false, or_assoc}
use databricks_vscode.PythonSetup.Detection.{
  PackageManager, PrimaryManager, known, InterpreterSource, DetectionSignal, uv_lock,
  pyproject_tool_uv, interpreter_uv, poetry_lock, pyproject_tool_poetry, interpreter_poetry,
  requirements_txt, constraints_txt, pyproject_pip_only, interpreter_venv, environment_yml,
  conda_prefix, interpreter_conda, PackageManagerSignals, source_or_unknown, includes_manager,
  push_if, fired_signals, uses, listed_managers, detect_package_managers,
}

-- The manager that a signal is evidence for: a tool on the PATH is evidence for none.
abbrev pub is_evidence : PackageManager → DetectionSignal → Bool
is_evidence PackageManager.uv uv_lock = true
is_evidence PackageManager.uv pyproject_tool_uv = true
is_evidence PackageManager.uv interpreter_uv = true
is_evidence PackageManager.poetry poetry_lock = true
is_evidence PackageManager.poetry pyproject_tool_poetry = true
is_evidence PackageManager.poetry interpreter_poetry = true
is_evidence PackageManager.pip requirements_txt = true
is_evidence PackageManager.pip constraints_txt = true
is_evidence PackageManager.pip pyproject_pip_only = true
is_evidence PackageManager.pip interpreter_venv = true
is_evidence PackageManager.conda environment_yml = true
is_evidence PackageManager.conda conda_prefix = true
is_evidence PackageManager.conda interpreter_conda = true
is_evidence _ _ = false

pub any-push_if :
    (test : DetectionSignal → Bool) (c : Bool) (x : DetectionSignal) (xs : List DetectionSignal)
    → any test (push_if c x xs) ≡ ((c && test x) || any test xs)
unfolding push_if
any-push_if test true x xs = refl
any-push_if test false x xs = refl

pub ruleset fired = (any-push_if, and-true, and-false, false-or, or-false, or_assoc)

includes-listed :
    (m : PackageManager) (s : PackageManagerSignals) (source : InterpreterSource)
    → includes_manager m (listed_managers s source) ≡ uses m s source
unfolding listed_managers
includes-listed PackageManager.uv s source = ground arith
includes-listed PackageManager.poetry s source = ground arith
includes-listed PackageManager.conda s source = ground arith
includes-listed PackageManager.pip s source = ground arith

evidence-fired :
    (m : PackageManager) (s : PackageManagerSignals) (source : InterpreterSource)
    → any (is_evidence m) (fired_signals s source) ≡ uses m s source
unfolding fired_signals uses
evidence-fired PackageManager.uv s source = simp fired
evidence-fired PackageManager.poetry s source = simp fired
evidence-fired PackageManager.conda s source = simp fired
evidence-fired PackageManager.pip s source = simp fired

-- A manager is listed exactly if a signal fired that is evidence for it; that its tool is on the
-- PATH is none.
pub listed_iff_evidence :
    (m : PackageManager) (s : PackageManagerSignals)
    → let d = detect_package_managers s in
      includes_manager m d.managers ≡ any (is_evidence m) d.signals
unfolding detect_package_managers
listed_iff_evidence m s =
    includes-listed m s (source_or_unknown s.interpreter_source)
    ∙ sym (evidence-fired m s (source_or_unknown s.interpreter_source))

-- The first manager of the list, or `unknown` for an empty one.
abbrev pub head_or_unknown : List PackageManager → PrimaryManager
head_or_unknown [] = PrimaryManager.unknown
head_or_unknown (m ∷ ms) = known m

-- The primary manager is the first listed one, so it is unknown only if none is listed; with a
-- lockfile it is uv or poetry.
pub primary_first :
    (s : PackageManagerSignals)
    → let d = detect_package_managers s in
      (d.primary ≡ head_or_unknown d.managers)
      × ((d.has_lockfile ≡ false)
          ⊎ (d.primary ≡ known PackageManager.uv)
          ⊎ (d.primary ≡ known PackageManager.poetry))
unfolding detect_package_managers uses
primary_first s = (ground arith, ground arith)
