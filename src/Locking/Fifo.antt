-- ===== src/Locking/Fifo.antt =====
-- Tasks that run `Mutex.synchronise`: each calls `wait`, runs its function, and calls `signal`
-- whether the function returned or threw.
mod Tests
use databricks_vscode.Prelude.{
  ℕ, ◌≤◌, ◌≡◌, refl, ◌⊎◌, inr, Bool, true, false, Option, none, some, List, [], ◌∷◌, ◌++◌,
  append-nil, append_assoc, length, arith,
}
use databricks_vscode.Locking.Mutex.{Mutex, unlocked, wait, signal}

-- `called` and `entered` record the history: who called `synchronise`, and who got past `wait`,
-- in order. `inside` are the tasks between `wait` and `signal`.
pub record Sections : Type 0 where
  pub mutex : Mutex ℕ
  pub inside : List ℕ
  pub called : List ℕ
  pub entered : List ℕ

abbrev pub start : Sections
start = record { mutex = unlocked; inside = []; called = []; entered = [] }

enter : ℕ → Sections → Mutex ℕ × Bool → Sections
enter task s (m, true) = record {
  mutex = m;
  inside = task ∷ s.inside;
  called = s.called ++ task ∷ [];
  entered = s.entered ++ task ∷ [];
}
enter task s (m, false) = record s { mutex = m; called = s.called ++ task ∷ [] }

-- The start of `synchronise`, up to its first `await` or into `fn`.
unfoldable pub call : ℕ → Sections → Sections
unfolding enter wait
call task s = enter task s (wait task s.mutex)

leave : List ℕ → Sections → Mutex ℕ × Option ℕ → Sections
leave rest s (m, none) = record s { mutex = m; inside = rest }
leave rest s (m, some next) = record s {
  mutex = m;
  inside = next ∷ rest;
  entered = s.entered ++ next ∷ [];
}

finish_first : List ℕ → Sections → Sections
unfolding leave signal
finish_first [] s = s
finish_first (task ∷ rest) s = leave rest s (signal s.mutex)

-- The `finally` of a task inside: the next waiter goes on.
unfoldable pub finish : Sections → Sections
unfolding finish_first
finish s = finish_first s.inside s

pub data Event : Type 0 where
  calls : ℕ → Event
  finishes : Event

unfoldable pub step : Event → Sections → Sections
unfolding call finish
step (calls task) s = call task s
step finishes s = finish s

unfoldable pub run : List Event → Sections → Sections
run [] s = s
run (e ∷ es) s = run es (step e s)

record Inv (s : Sections) : Type 0 where
  fifo : s.called ≡ s.entered ++ s.mutex.wait_queue
  exclusive :
      ((s.mutex.locked ≡ true) × (length s.inside ≡ 1))
      ⊎ ((s.mutex.locked ≡ false) × (s.inside ≡ []) × (s.mutex.wait_queue ≡ []))

start-Inv : Inv start
start-Inv = record { fifo = refl; exclusive = inr (refl, refl, refl) }

call-Inv : (task : ℕ) (s : Sections) → Inv s → Inv (call task s)
unfolding call
call-Inv task s v = record {
  fifo = ground (
    arith,
    append_assoc s.entered s.mutex.wait_queue (task ∷ []),
    append-nil s.entered,
    append-nil (s.entered ++ task ∷ []),
  );
  exclusive = ground arith;
}

finish-Inv_at :
    (inside queue : List ℕ) (s : Sections)
    → s.inside ≡ inside
    → s.mutex.wait_queue ≡ queue
    → Inv s
    → Inv (finish s)
unfolding finish
finish-Inv_at [] queue s p q v = record {
  fifo = ground (arith, v.fifo);
  exclusive = ground (arith, v.exclusive);
}
finish-Inv_at (task ∷ rest) [] s p q v = record { fifo = ground arith; exclusive = ground arith }
finish-Inv_at (task ∷ rest) (next ∷ waiting) s p q v = record {
  fifo = ground (arith, append_assoc s.entered (next ∷ []) waiting);
  exclusive = ground arith;
}

finish-Inv : (s : Sections) → Inv s → Inv (finish s)
finish-Inv s v = finish-Inv_at s.inside s.mutex.wait_queue s refl refl v

run-Inv : (es : List Event) (s : Sections) → Inv s → Inv (run es s)
unfolding run step
run-Inv [] s v = v
run-Inv (calls task ∷ es) s v = run-Inv es (call task s) (call-Inv task s v)
run-Inv (finishes ∷ es) s v = run-Inv es (finish s) (finish-Inv s v)

-- After any calls and returns from an unlocked mutex: the tasks got past `wait` in the order in
-- which they called, the rest of the callers wait in that order, at most one task is inside, and
-- a task waits only while one is inside.
pub synchronise_in_order :
    (es : List Event)
    → let s = run es start in
      (s.called ≡ s.entered ++ s.mutex.wait_queue)
      × (length s.inside ≤ 1)
      × ((length s.inside ≡ 1) ⊎ (s.mutex.wait_queue ≡ []))
synchronise_in_order es =
    let v = run-Inv es start start-Inv in
    (v.fifo, ground (arith, v.exclusive), ground (arith, v.exclusive))
