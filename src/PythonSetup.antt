-- ===== src/PythonSetup.antt =====
-- packages/databricks-vscode/src/language/packageManagerDetection.ts and
-- packages/databricks-vscode/src/python-setup/utils: what kind of Python project is open, which setup
-- flow fits it, and the arguments and the progress line of that flow.
pub mod Detection
pub mod Gate
pub mod Scoring
pub mod Observations
pub mod SetupArgs
pub mod Progress
mod Tests
