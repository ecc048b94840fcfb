-- ===== src/Execute.antt =====
-- packages/databricks-execute/src: the command-line program that runs a local file on a workspace.
mod Tests
pub mod Args
pub mod Output
pub mod Bootstrap
pub mod Paths
pub mod Frames
pub mod Init
pub mod Main
