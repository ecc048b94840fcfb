-- ===== src/Cli.antt =====
-- packages/databricks-vscode/src/cli: the runner of child processes.
pub mod Process
pub mod Spawn
mod Tests
