-- ===== src/Environment.antt =====
-- packages/databricks-vscode/src/utils: the environment of child processes and of requests.
pub mod Proxy
pub mod Vars
mod Tests
