-- ===== src/Locking/RwLock.antt =====
-- locking/RWLock.ts. A task is where it stands: at an `await` of one of the four methods, in a
-- queue or about to go on, or inside the lock. Tasks at one place are interchangeable, so the state
-- counts them. Each event runs one task from one `await` to the next.
pub mod Safety
pub mod Progress
mod Tests
use databricks_vscode.Prelude.{
  ℕ, suc, ◌+◌, ◌-◌, Bool, true, false, Option, none, some, List, [], ◌∷◌, ◌==◌, if◌then◌else◌,
}
use databricks_vscode.Locking.Mutex.{Mutex, unlocked, wait, signal}

-- Where a task waits for `readerMutex`: in `readerEntry`, `readerExit` or `writerEntry`.
pub data Point : Type 0 where
  reader_entry reader_exit writer_entry : Point

-- Where a task waits for `writerMutex`: in `readerEntry`, which holds `readerMutex`, or in
-- `writerEntry`.
pub data Turn : Type 0 where
  reader_turn writer_turn : Turn

-- `at_…` and `has_…` count the tasks that a mutex has let through and that have not run on yet.
pub record RwLock : Type 0 where
  pub reader_mutex : Mutex Point
  pub writer_mutex : Mutex Turn
  pub reader_count : ℕ
  pub at_entry : ℕ
  pub at_exit : ℕ
  pub at_writer : ℕ
  pub has_readers : ℕ
  pub has_writer : ℕ
  pub reading : ℕ
  pub writing : ℕ

abbrev pub free : RwLock
free = record {
  reader_mutex = unlocked;
  writer_mutex = unlocked;
  reader_count = 0;
  at_entry = 0;
  at_exit = 0;
  at_writer = 0;
  has_readers = 0;
  has_writer = 0;
  reading = 0;
  writing = 0;
}

-- The continuation of a task that `readerMutex` lets through.
abbrev resume_point : Option Point → RwLock → RwLock
resume_point none s = s
resume_point (some reader_entry) s = record s { at_entry = s.at_entry + 1 }
resume_point (some reader_exit) s = record s { at_exit = s.at_exit + 1 }
resume_point (some writer_entry) s = record s { at_writer = s.at_writer + 1 }

abbrev resume_turn : Option Turn → RwLock → RwLock
resume_turn none s = s
resume_turn (some reader_turn) s = record s { has_readers = s.has_readers + 1 }
resume_turn (some writer_turn) s = record s { has_writer = s.has_writer + 1 }

abbrev passed {ℓ} : {A : Type ℓ} → A → Bool → Option A
passed a true = some a
passed a false = none

wait_point : Point → RwLock → RwLock
unfolding wait
wait_point p s =
    let (m, entered) = wait p s.reader_mutex in
    resume_point (passed p entered) (record s { reader_mutex = m })

signal_point : RwLock → RwLock
unfolding signal
signal_point s =
    let (m, next) = signal s.reader_mutex in resume_point next (record s { reader_mutex = m })

wait_turn : Turn → RwLock → RwLock
unfolding wait
wait_turn t s =
    let (m, entered) = wait t s.writer_mutex in
    resume_turn (passed t entered) (record s { writer_mutex = m })

signal_turn : RwLock → RwLock
unfolding signal
signal_turn s =
    let (m, next) = signal s.writer_mutex in resume_turn next (record s { writer_mutex = m })

-- `readerEntry` behind its first `await`
enter_reader : RwLock → RwLock
unfolding wait_turn signal_point
enter_reader s =
    let t = record s { reader_count = s.reader_count + 1 } in
    if t.reader_count == 1
    then wait_turn reader_turn t
    else signal_point (record t { reading = t.reading + 1 })

-- `readerEntry` behind its second `await`
admit_reader : RwLock → RwLock
unfolding signal_point
admit_reader s = signal_point (record s { reading = s.reading + 1 })

-- `readerExit` behind its `await`
exit_reader : RwLock → RwLock
unfolding signal_turn signal_point
exit_reader s =
    let t = record s { reader_count = s.reader_count - 1 } in
    signal_point (if t.reader_count == 0 then signal_turn t else t)

-- `writerEntry` behind its first `await`
enter_writer : RwLock → RwLock
unfolding signal_point wait_turn
enter_writer s = wait_turn writer_turn (signal_point s)

-- A call of a method, or a task that a mutex let through going on. A caller exits only what it
-- entered.
pub data Event : Type 0 where
  call_reader_entry call_reader_exit call_writer_entry call_writer_exit : Event
  run_entry run_exit run_writer admit_readers admit_writer : Event

pub step : Event → RwLock → RwLock
unfolding wait_point signal_turn enter_reader admit_reader exit_reader enter_writer
step call_reader_entry s = wait_point reader_entry s
step call_reader_exit s =
    if s.reading == 0 then s else wait_point reader_exit (record s { reading = s.reading - 1 })
step call_writer_entry s = wait_point writer_entry s
step call_writer_exit s =
    if s.writing == 0 then s else signal_turn (record s { writing = s.writing - 1 })
step run_entry s =
    if s.at_entry == 0 then s else enter_reader (record s { at_entry = s.at_entry - 1 })
step run_exit s = if s.at_exit == 0 then s else exit_reader (record s { at_exit = s.at_exit - 1 })
step run_writer s =
    if s.at_writer == 0 then s else enter_writer (record s { at_writer = s.at_writer - 1 })
step admit_readers s =
    if s.has_readers == 0 then s else admit_reader (record s { has_readers = s.has_readers - 1 })
step admit_writer s =
    if s.has_writer == 0
    then s
    else record s { has_writer = s.has_writer - 1; writing = s.writing + 1 }

unfoldable pub run : List Event → RwLock → RwLock
unfolding step
run [] s = s
run (e ∷ es) s = run es (step e s)
