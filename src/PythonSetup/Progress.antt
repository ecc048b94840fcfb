-- ===== src/PythonSetup/Progress.antt =====
-- python-setup/utils/setupProgress.ts: the progress line. A time is a number of JavaScript: a whole
-- number of milliseconds, or a negative or non-finite one.
pub mod Laws
use databricks_vscode.Prelude.{
  ℕ, zero, suc, ◌-◌, ◌*◌, ◌/◌, ◌%◌, Option, none, some, List, [], ◌∷◌, ◌++◌, Text, codes, ltb,
  length, decimal, if◌then◌else◌,
}

pub data Milliseconds : Type 0 where
  whole : ℕ → Milliseconds
  below_zero not_finite : Milliseconds

abbrev pub leading_phase_ms : ℕ
leading_phase_ms = 3500

abbrev pub leading_phases : List Text
leading_phases =
    codes "checking prerequisites…"
    ∷ codes "resolving your Databricks compute…"
    ∷ codes "fetching matching versions and constraints…"
    ∷ codes "updating pyproject.toml…"
    ∷ []

abbrev pub provision_rotate_ms : ℕ
provision_rotate_ms = 6000

abbrev pub provision_steps : List Text
provision_steps =
    codes "installing the matching Python version…"
    ∷ codes "creating the virtual environment…"
    ∷ codes "resolving the dependency graph…"
    ∷ codes "downloading databricks-connect and dependencies…"
    ∷ codes "building and installing packages with uv…"
    ∷ codes "syncing your project's dependencies…"
    ∷ []

abbrev pub leading_total_ms : ℕ
leading_total_ms = length leading_phases * leading_phase_ms

-- `list[index]`, `none` for `undefined`.
abbrev pub get_elem? : {A : Type 0} → List A → ℕ → Option A
get_elem? [] i = none
get_elem? (x ∷ xs) zero = some x
get_elem? (x ∷ xs) (suc i) = get_elem? xs i

abbrev pub clamp_elapsed : Milliseconds → ℕ
clamp_elapsed (whole ms) = ms
clamp_elapsed below_zero = 0
clamp_elapsed not_finite = 0

-- `padStart(2, "0")`
abbrev pub pad : Text → Text
pad [] = codes "00"
pad (c ∷ []) = b'0' ∷ c ∷ []
pad (c ∷ d ∷ s) = c ∷ d ∷ s

unfoldable pub format_elapsed : Milliseconds → Text
unfolding decimal
format_elapsed ms =
    let total_seconds = clamp_elapsed ms / 1000 in
    decimal (total_seconds / 60) ++ b':' ∷ pad (decimal (total_seconds % 60))

unfoldable pub setup_progress_phase : Milliseconds → Option Text
setup_progress_phase ms =
    let elapsed = clamp_elapsed ms in
    let into_provision = elapsed - leading_total_ms in
    if ltb elapsed leading_total_ms
    then get_elem? leading_phases (elapsed / leading_phase_ms)
    else get_elem? provision_steps ((into_provision / provision_rotate_ms) % length provision_steps)
