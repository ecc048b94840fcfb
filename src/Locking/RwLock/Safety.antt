-- ===== src/Locking/RwLock/Safety.antt =====
-- Readers and writers exclude each other, and no task waits in vain.
use databricks_vscode.Prelude.{
  ℕ, suc, ◌+◌, ◌-◌, ◌≤◌, ◌<◌, ◌≡◌, refl, Bool, true, false, List, [], ◌∷◌, ◌++◌, ◌==◌,
  if◌then◌else◌, arith, Bool-cases, ◌⊎◌, inl, inr,
}
use databricks_vscode.Locking.RwLock.{
  Point, reader_entry, reader_exit, writer_entry, Turn, reader_turn, writer_turn, RwLock, free,
  wait_point, signal_point, wait_turn, signal_turn, enter_reader, admit_reader, exit_reader,
  enter_writer, Event, call_reader_entry, call_reader_exit, call_writer_entry, call_writer_exit,
  run_entry, run_exit, run_writer, admit_readers, admit_writer, step, run,
}

abbrev pub bit : Bool → ℕ
bit true = 1
bit false = 0

-- Tasks in `readerExit` that wait for `readerMutex`.
abbrev pub exits : List Point → ℕ
exits [] = 0
exits (reader_exit ∷ q) = suc (exits q)
exits (reader_entry ∷ q) = exits q
exits (writer_entry ∷ q) = exits q

-- Tasks in `readerEntry` that wait for `writerMutex`.
abbrev pub firsts : List Turn → ℕ
firsts [] = 0
firsts (reader_turn ∷ q) = suc (firsts q)
firsts (writer_turn ∷ q) = firsts q

exits-push : (q : List Point) (p : Point) → exits (q ++ p ∷ []) ≡ exits q + exits (p ∷ [])
exits-push [] p = omega arith
exits-push (reader_exit ∷ q) p = omega (arith, exits-push q p)
exits-push (reader_entry ∷ q) p = exits-push q p
exits-push (writer_entry ∷ q) p = exits-push q p

firsts-push : (q : List Turn) (t : Turn) → firsts (q ++ t ∷ []) ≡ firsts q + firsts (t ∷ [])
firsts-push [] t = omega arith
firsts-push (reader_turn ∷ q) t = omega (arith, firsts-push q t)
firsts-push (writer_turn ∷ q) t = firsts-push q t

-- The readers share `writerMutex` as a group, once the first of them has it.
abbrev pub group : ℕ → ℕ → ℕ
group count waiting = if count == 0 then 0 else if waiting == 0 then 1 else 0

-- `held` is 1 while the running task holds `readerMutex`, and `gone` is 1 while it has left the
-- inside but not yet lowered `readerCount`.
pub record Inv (held gone : ℕ) (s : RwLock) : Type 0 where
  pub rm_owner :
      bit s.reader_mutex.locked
      ≡ held
        + s.at_entry
        + s.at_exit
        + s.at_writer
        + s.has_readers
        + firsts s.writer_mutex.wait_queue
  pub rm_queue : s.reader_mutex.locked ≡ false → s.reader_mutex.wait_queue ≡ []
  pub wm_owner :
      bit s.writer_mutex.locked
      ≡ s.has_writer + s.writing + group s.reader_count (firsts s.writer_mutex.wait_queue)
  pub wm_queue : s.writer_mutex.locked ≡ false → s.writer_mutex.wait_queue ≡ []
  pub count :
      s.reader_count
      ≡ gone
        + s.reading
        + s.at_exit
        + exits s.reader_mutex.wait_queue
        + s.has_readers
        + firsts s.writer_mutex.wait_queue
  pub first : 0 < firsts s.writer_mutex.wait_queue → s.reader_count ≡ 1

signal_point-Inv_at :
    (q : List Point) (gone : ℕ) (s : RwLock)
    → s.reader_mutex.wait_queue ≡ q
    → Inv 1 gone s
    → Inv 0 gone (signal_point s)
unfolding signal_point
signal_point-Inv_at [] gone s e v = ground arith
signal_point-Inv_at (p ∷ q) gone s e v = ground arith

signal_point-Inv : {gone : ℕ} (s : RwLock) → Inv 1 gone s → Inv 0 gone (signal_point s)
signal_point-Inv {gone} s v = signal_point-Inv_at s.reader_mutex.wait_queue gone s refl v

wait_point-Inv : (p : Point) (s : RwLock) → Inv 0 (exits (p ∷ [])) s → Inv 0 0 (wait_point p s)
unfolding wait_point
wait_point-Inv p s v = ground (arith, exits-push s.reader_mutex.wait_queue p)

writer_turn-Inv : (s : RwLock) → Inv 0 0 s → Inv 0 0 (wait_turn writer_turn s)
unfolding wait_turn
writer_turn-Inv s v = ground (arith, firsts-push s.writer_mutex.wait_queue writer_turn)

enter_reader-Inv : (s : RwLock) → Inv 1 0 s → Inv 0 0 (enter_reader s)
unfolding enter_reader
enter_reader-Inv s v = elim (Bool-cases (s.reader_count + 1 == 1)) [
  | inl first ↦ ground (arith, firsts-push s.writer_mutex.wait_queue reader_turn)
  | inr later ↦ rw later (
      signal_point-Inv (record s { reader_count = s.reader_count + 1; reading = s.reading + 1 })
        (ground arith))
]

admit_reader-Inv :
    (s : RwLock)
    → 0 < s.has_readers
    → Inv 0 0 s
    → Inv 0 0 (admit_reader (record s { has_readers = s.has_readers - 1 }))
unfolding admit_reader
admit_reader-Inv s h v =
    signal_point-Inv (record s { has_readers = s.has_readers - 1; reading = s.reading + 1 })
      (ground arith)

-- The group or a writer gives `writerMutex` up.
last_reader-Inv_at :
    (q : List Turn) (s : RwLock)
    → s.writer_mutex.wait_queue ≡ q
    → s.reader_count - 1 ≡ 0
    → Inv 1 1 s
    → Inv 1 0 (signal_turn (record s { reader_count = s.reader_count - 1 }))
unfolding signal_turn
last_reader-Inv_at [] s e one v = ground arith
last_reader-Inv_at (reader_turn ∷ q) s e one v = ground arith
last_reader-Inv_at (writer_turn ∷ q) s e one v = ground arith

exit_reader-Inv : (s : RwLock) → Inv 1 1 s → Inv 0 0 (exit_reader s)
unfolding exit_reader
exit_reader-Inv s v = elim (Bool-cases (s.reader_count - 1 == 0)) [
  | inl last ↦ rw last (
      signal_point-Inv (signal_turn (record s { reader_count = s.reader_count - 1 }))
        (last_reader-Inv_at s.writer_mutex.wait_queue s refl (ground arith) v))
  | inr more ↦
      rw more (signal_point-Inv (record s { reader_count = s.reader_count - 1 }) (ground arith))
]

writer_exit-Inv_at :
    (q : List Turn) (s : RwLock)
    → s.writer_mutex.wait_queue ≡ q
    → 0 < s.writing
    → Inv 0 0 s
    → Inv 0 0 (signal_turn (record s { writing = s.writing - 1 }))
unfolding signal_turn
writer_exit-Inv_at [] s e h v = ground arith
writer_exit-Inv_at (reader_turn ∷ q) s e h v = ground arith
writer_exit-Inv_at (writer_turn ∷ q) s e h v = ground arith

enter_writer-Inv : (s : RwLock) → Inv 1 0 s → Inv 0 0 (enter_writer s)
unfolding enter_writer
enter_writer-Inv s v = writer_turn-Inv (signal_point s) (signal_point-Inv s v)

step-Inv : (e : Event) (s : RwLock) → Inv 0 0 s → Inv 0 0 (step e s)
unfolding step
step-Inv call_reader_entry s v = wait_point-Inv reader_entry s v
step-Inv call_writer_entry s v = wait_point-Inv writer_entry s v
step-Inv call_reader_exit s v = elim (Bool-cases (s.reading == 0)) [
  | inl none_in ↦ rw none_in v
  | inr some_in ↦
      rw some_in (wait_point-Inv reader_exit (record s { reading = s.reading - 1 }) (ground arith))
]
step-Inv call_writer_exit s v = elim (Bool-cases (s.writing == 0)) [
  | inl none_in ↦ rw none_in v
  | inr some_in ↦ rw some_in (writer_exit-Inv_at s.writer_mutex.wait_queue s refl (ground arith) v)
]
step-Inv run_entry s v = elim (Bool-cases (s.at_entry == 0)) [
  | inl none_at ↦ rw none_at v
  | inr some_at ↦
      rw some_at (enter_reader-Inv (record s { at_entry = s.at_entry - 1 }) (ground arith))
]
step-Inv run_exit s v = elim (Bool-cases (s.at_exit == 0)) [
  | inl none_at ↦ rw none_at v
  | inr some_at ↦ rw some_at (exit_reader-Inv (record s { at_exit = s.at_exit - 1 }) (ground arith))
]
step-Inv run_writer s v = elim (Bool-cases (s.at_writer == 0)) [
  | inl none_at ↦ rw none_at v
  | inr some_at ↦
      rw some_at (enter_writer-Inv (record s { at_writer = s.at_writer - 1 }) (ground arith))
]
step-Inv admit_readers s v = elim (Bool-cases (s.has_readers == 0)) [
  | inl none_at ↦ rw none_at v
  | inr some_at ↦ rw some_at (admit_reader-Inv s (ground arith) v)
]
step-Inv admit_writer s v = ground arith

pub free-Inv : Inv 0 0 free
free-Inv = ground arith

pub run-Inv : (es : List Event) (s : RwLock) → Inv 0 0 s → Inv 0 0 (run es s)
unfolding run
run-Inv [] s v = v
run-Inv (e ∷ es) s v = run-Inv es (step e s) (step-Inv e s v)

-- After any calls, in any interleaving, at most one writer is inside the lock, and no reader and
-- writer are inside together.
pub exclusion :
    (es : List Event) → let s = run es free in (s.writing ≤ 1) × ((s.writing ≡ 0) ⊎ (s.reading ≡ 0))
exclusion es = let v = run-Inv es free free-Inv in (ground (arith, v), ground (arith, v))
