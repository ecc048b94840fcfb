-- ===== src/Clusters.antt =====
-- cluster/ClusterLoader.ts: the loop that keeps the map of the clusters up to date. `start` is cut
-- at its two `await`s, `stop` and `restart` at theirs; an event runs one task up to its next
-- `await`. `C` is a cluster.
pub mod Loops
mod Tests
use databricks_vscode.Prelude.{
  ℕ, zero, suc, ◌+◌, Bool, true, false, ◌||◌, Option, none, some, List, [], ◌∷◌, ◌++◌, Text, same,
  if◌then◌else◌,
}

abbrev pub includes : Text → List Text → Bool
includes x [] = false
includes x (y ∷ ys) = same x y || includes x ys

-- How `_load` ends; `listed` has the ids of all clusters.
pub data Ending : Type 0 where
  no_client : Ending
  failed : Ending
  listed : List Text → Ending

-- Of the loops that `start` has begun, `loading` run `_load`, `sleeping` wait for the timer and
-- `woken` have got past it. `waiting` counts the calls of `stop` that wait, `restarting` are
-- those of `restart` with their `cleanup`, and `resumed` the restarts that go on.
pub record Loader (C : Type 0) : Type 0 where
  pub stopped : Bool
  pub running : Bool
  pub loading : ℕ
  pub sleeping : ℕ
  pub woken : ℕ
  pub waiting : ℕ
  pub restarting : List Bool
  pub resumed : List Bool
  pub clusters : List (Text × C)

-- `checked` is the answer to `hasExecutePerms`, `replaced` the map when all clusters are shown.
pub data Event (C : Type 0) : Type 0 where
  start_called stop_called : Event C
  restart_called : (cleanup : Bool) → Event C
  checked : (id : Text) → C → (keep : Bool) → Event C
  replaced : List (Text × C) → Event C
  load_ended : Ending → Event C
  timed_out woke resumed_one cleanup_called : Event C

module _ {C : Type 0} where
  abbrev pub new : Loader C
  new = record {
    stopped = true;
    running = false;
    loading = 0;
    sleeping = 0;
    woken = 0;
    waiting = 0;
    restarting = [];
    resumed = [];
    clusters = [];
  }

  -- `Map.set` and `Map.delete`
  unfoldable pub put : Text → C → List (Text × C) → List (Text × C)
  put id c [] = (id, c) ∷ []
  put id c ((i, d) ∷ m) = let rest = (i, d) ∷ put id c m in if same i id then (i, c) ∷ m else rest

  unfoldable pub remove : Text → List (Text × C) → List (Text × C)
  remove id [] = []
  remove id ((i, d) ∷ m) = let rest = remove id m in if same i id then rest else (i, d) ∷ rest

  unfoldable pub cleanup_clusters_map : List Text → List (Text × C) → List (Text × C)
  cleanup_clusters_map ids [] = []
  cleanup_clusters_map ids ((i, d) ∷ m) =
      let rest = cleanup_clusters_map ids m in if includes i ids then (i, d) ∷ rest else rest

  abbrev pub check : Text → C → Bool → Loader C → Loader C
  unfolding put remove
  check id c keep s = record s {
    clusters = if keep then put id c s.clusters else remove id s.clusters;
  }

  unfoldable pub finish_load : Ending → Loader C → Loader C
  unfolding cleanup_clusters_map
  finish_load no_client s = record s { clusters = [] }
  finish_load failed s = s
  finish_load (listed ids) s = record s { clusters = cleanup_clusters_map ids s.clusters }

  unfoldable pub start : Loader C → Loader C
  start s =
      if s.running then s else record s { running = true; stopped = false; loading = suc s.loading }

  -- `_onDidStop`: every task that waits goes on.
  unfoldable pub did_stop : Loader C → Loader C
  did_stop s = record s {
    stopped = true;
    waiting = 0;
    restarting = [];
    resumed = s.resumed ++ s.restarting;
  }

  -- `stop` up to its `await`, in a state that is not stopped: the timers are cut short.
  abbrev pub request_stop : Loader C → Loader C
  request_stop s = record s { running = false; woken = s.woken + s.sleeping; sleeping = 0 }

  unfoldable pub stop : Loader C → Loader C
  stop s = if s.stopped then s else record (request_stop s) { waiting = suc s.waiting }

  unfoldable pub restart : Bool → Loader C → Loader C
  restart cleanup s =
      if s.stopped
      then record s { resumed = s.resumed ++ cleanup ∷ [] }
      else record (request_stop s) { restarting = s.restarting ++ cleanup ∷ [] }

  unfoldable pub finish_restart : Bool → Loader C → Loader C
  unfolding start
  finish_restart cleanup s = start (if cleanup then record s { clusters = [] } else s)

  -- A loop behind `_load`, and one behind its timer.
  unfoldable pub after_load : Loader C → Loader C
  unfolding did_stop
  after_load s = if s.running then record s { sleeping = suc s.sleeping } else did_stop s

  unfoldable pub after_timer : Loader C → Loader C
  unfolding did_stop
  after_timer s = if s.running then record s { loading = suc s.loading } else did_stop s

  abbrev pub end_load : Ending → ℕ → Loader C → Loader C
  unfolding finish_load after_load
  end_load e zero s = s
  end_load e (suc n) s = after_load (finish_load e (record s { loading = n }))

  abbrev pub wake : ℕ → Loader C → Loader C
  unfolding after_timer
  wake zero s = s
  wake (suc n) s = after_timer (record s { woken = n })

  abbrev pub time_out : ℕ → Loader C → Loader C
  time_out zero s = s
  time_out (suc n) s = record s { sleeping = n; woken = suc s.woken }

  abbrev pub resume : List Bool → Loader C → Loader C
  unfolding finish_restart
  resume [] s = s
  resume (cleanup ∷ rest) s = finish_restart cleanup (record s { resumed = rest })

  unfoldable pub step : Event C → Loader C → Loader C
  unfolding check start stop restart end_load wake resume
  step start_called s = start s
  step stop_called s = stop s
  step (restart_called cleanup) s = restart cleanup s
  step (checked id c keep) s = if s.running then check id c keep s else s
  step (replaced all) s = record s { clusters = all }
  step (load_ended e) s = end_load e s.loading s
  step timed_out s = time_out s.sleeping s
  step woke s = wake s.woken s
  step resumed_one s = resume s.resumed s
  step cleanup_called s = record s { clusters = [] }

  unfoldable pub run : List (Event C) → Loader C → Loader C
  unfolding step
  run [] s = s
  run (e ∷ events) s = run events (step e s)
