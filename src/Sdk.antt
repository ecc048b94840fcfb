-- ===== src/Sdk.antt =====
-- packages/databricks-vscode/src/sdk-extensions: clusters and commands.
pub mod Cluster
pub mod Runtime
pub mod Command
mod Tests
