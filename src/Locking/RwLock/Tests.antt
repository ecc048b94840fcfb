-- ===== src/Locking/RwLock/Tests.antt =====
-- A writer, a reader behind it, and the lock when both are gone.
use databricks_vscode.Prelude.{◌≤◌, ◌≡◌, refl, ◌⊎◌, List, [], ◌∷◌}
use databricks_vscode.Locking.RwLock.{
  free, Event, call_reader_entry, call_reader_exit, call_writer_entry, call_writer_exit, run_entry,
  run_exit, run_writer, admit_readers, admit_writer, step, run,
}
use databricks_vscode.Locking.RwLock.Safety.{exclusion}
use databricks_vscode.Locking.RwLock.Progress.{IsQuiet, never_stuck}

abbrev entries : List Event
entries =
    call_writer_entry ∷ call_reader_entry ∷ run_writer ∷ admit_writer ∷ run_entry ∷ call_writer_exit
    ∷ admit_readers ∷ []

abbrev all_gone : List Event
all_gone =
    call_writer_entry ∷ call_reader_entry ∷ run_writer ∷ admit_writer ∷ run_entry ∷ call_writer_exit
    ∷ admit_readers ∷ call_reader_exit ∷ run_exit ∷ []

reader_inside : ((run entries free).reading ≡ 1) × ((run entries free).writing ≡ 0)
unfolding run step
reader_inside = (refl, refl)

exclusion_example :
    ((run entries free).writing ≤ 1)
    × (((run entries free).writing ≡ 0) ⊎ ((run entries free).reading ≡ 0))
exclusion_example = exclusion entries

all_gone-IsQuiet : IsQuiet (run all_gone free)
unfolding run step
all_gone-IsQuiet = record {
  entry = refl;
  leaving = refl;
  writer = refl;
  readers = refl;
  turn = refl;
  no_reader = refl;
  no_writer = refl;
}

never_stuck_example : run all_gone free ≡ free
never_stuck_example = never_stuck all_gone all_gone-IsQuiet
