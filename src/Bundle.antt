-- ===== src/Bundle.antt =====
-- packages/databricks-vscode/src/bundle/models: the models of a bundle.
pub mod RemoteState
pub mod Variables
mod Tests
