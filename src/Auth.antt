-- ===== src/Auth.antt =====
-- packages/databricks-vscode/src/configuration/auth: the login checks and the loop that runs them.
pub mod Orchestrate
pub mod AzureCliCheck
pub mod DatabricksCliCheck
