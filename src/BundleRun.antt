-- ===== src/BundleRun.antt =====
-- packages/databricks-vscode/src/bundle/run: the monitors of a run of a bundle resource.
pub mod RunState
pub mod Job
pub mod Pipeline
pub mod RunView
mod Tests
