-- ===== src/Locking/RwLock/Progress.antt =====
-- The lock is never stuck: every `signal` that a waiting task needs is sent.
use databricks_vscode.Prelude.{◌≡◌, false, List, arith}
use databricks_vscode.Locking.RwLock.{RwLock, free, Event, run}
use databricks_vscode.Locking.RwLock.Safety.{Inv, free-Inv, run-Inv}

-- No task can go on by itself, and nobody is inside.
pub record IsQuiet (s : RwLock) : Type 0 where
  pub entry : s.at_entry ≡ 0
  pub leaving : s.at_exit ≡ 0
  pub writer : s.at_writer ≡ 0
  pub readers : s.has_readers ≡ 0
  pub turn : s.has_writer ≡ 0
  pub no_reader : s.reading ≡ 0
  pub no_writer : s.writing ≡ 0

quiet_unlocked :
    (s : RwLock)
    → Inv 0 0 s
    → IsQuiet s
    → (s.writer_mutex.locked ≡ false) × (s.reader_mutex.locked ≡ false)
quiet_unlocked s v q = ground arith

quiet_free : (s : RwLock) → Inv 0 0 s → IsQuiet s → s ≡ free
quiet_free s v q = ground (arith, quiet_unlocked s v q)

-- After any calls, in any interleaving: when no task can go on by itself and nobody is inside, no
-- task waits either, both mutexes are unlocked and the reader count is 0.
pub never_stuck : (es : List Event) → IsQuiet (run es free) → run es free ≡ free
never_stuck es q = quiet_free (run es free) (run-Inv es free free-Inv) q
