-- ===== src/Locking/Fifo/Tests.antt =====
-- Three callers, of whom two finish.
use databricks_vscode.Prelude.{◌≤◌, ◌≡◌, refl, ◌⊎◌, List, [], ◌∷◌, ◌++◌, length}
use databricks_vscode.Locking.Fifo.{start, Event, calls, finishes, step, run, synchronise_in_order}

abbrev three : List Event
three = calls 7 ∷ calls 8 ∷ finishes ∷ calls 9 ∷ finishes ∷ []

three_entered : (run three start).entered ≡ 7 ∷ 8 ∷ 9 ∷ []
unfolding run step
three_entered = refl

synchronise_in_order_example :
    ((run three start).called ≡ (run three start).entered ++ (run three start).mutex.wait_queue)
    × (length (run three start).inside ≤ 1)
    × ((length (run three start).inside ≡ 1) ⊎ ((run three start).mutex.wait_queue ≡ []))
synchronise_in_order_example = synchronise_in_order three
