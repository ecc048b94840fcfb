-- ===== src/Execute/Main.antt =====
-- `main` of cli.ts, in the order of its parts.
mod Tests
pub mod Call
pub mod World
pub mod Bundle
pub mod Cluster
pub mod WorkflowRun
pub mod Notebook
pub mod Python
pub mod Program
pub mod Waiting
pub mod Holds
pub mod Leaves
pub mod Protocol
