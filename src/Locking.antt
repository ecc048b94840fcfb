-- ===== src/Locking.antt =====
-- packages/databricks-vscode/src/locking: the asynchronous mutex and the readers-writer lock.
pub mod Mutex
pub mod Fifo
pub mod RwLock
pub mod CachedValue
