-- ===== src/Locking/CachedValue/Tests.antt =====
-- A cached number: a first load, an invalidation during the next one, and a load that fails.
use databricks_vscode.Prelude.{ℕ, ◌==◌, true, false, none, some, List, [], ◌∷◌}
use databricks_vscode.Locking.CachedValue.{
  nobody, loading, CachedValue, Event, read, goes_on, getter_resolves, set_to, fresh, run,
}
use databricks_vscode.Locking.CachedValue.Laws.{Changes, Answered, value-Changes}
use databricks_vscode.Locking.Mutex.{unlocked}

abbrev loads : List (Event ℕ)
loads = read 1 ∷ read 2 ∷ goes_on ∷ getter_resolves 5 ∷ goes_on ∷ set_to 6 ∷ set_to 6 ∷ []

value-Changes_example :
    Changes ◌==◌ (run ◌==◌ loads (fresh ◌==◌)).value (run ◌==◌ loads (fresh ◌==◌)).fired
    × Answered ◌==◌ (run ◌==◌ loads (fresh ◌==◌)).answers
value-Changes_example = value-Changes ◌==◌ loads

abbrev is_loading : CachedValue ℕ
is_loading = record {
  value = some 5;
  dirty = true;
  mutex = record { wait_queue = []; locked = true };
  holder = loading 3;
  fired = (none, 5) ∷ [];
  answers = [];
}

abbrev loaded : CachedValue ℕ
loaded = record {
  value = some 5;
  dirty = false;
  mutex = unlocked;
  holder = nobody;
  fired = (none, 5) ∷ [];
  answers = [];
}
