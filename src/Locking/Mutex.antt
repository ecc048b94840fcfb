-- ===== src/Locking/Mutex.antt =====
-- locking/Mutex.ts. A waiter is the continuation that `resolve` would run: the type `A` names it.
-- `wait` and `signal` have no `await` inside, so each is one atomic step.
use databricks_vscode.Prelude.{
  Bool, true, false, Option, none, some, List, [], ◌∷◌, ◌++◌, if◌then◌else◌,
}

pub record Mutex {ℓ} (A : Type ℓ) : Type ℓ where
  pub wait_queue : List A
  pub locked : Bool

module _ {ℓ} {A : Type ℓ} where
  abbrev pub unlocked : Mutex A
  unlocked = record { wait_queue = []; locked = false }

  -- The flag tells whether the caller goes on at once.
  unfoldable pub wait : A → Mutex A → Mutex A × Bool
  wait waiter m =
      if m.locked
      then (record m { wait_queue = m.wait_queue ++ waiter ∷ [] }, false)
      else (record m { locked = true }, true)

  -- `shift` and the two branches on its result
  signal_next : List A → Mutex A → Mutex A × Option A
  signal_next [] m = (record m { locked = false }, none)
  signal_next (resolve ∷ rest) m = (record m { wait_queue = rest }, some resolve)

  -- The waiter whose continuation is scheduled, if there is one.
  unfoldable pub signal : Mutex A → Mutex A × Option A
  unfolding signal_next
  signal m = signal_next m.wait_queue m
