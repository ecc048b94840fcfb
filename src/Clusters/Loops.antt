-- ===== src/Clusters/Loops.antt =====
-- The loops of the cluster loader, and the tasks that wait for them to stop.
use databricks_vscode.Prelude.{
  ℕ, zero, suc, ◌+◌, ◌<◌, Bool, true, false, ◌&&◌, List, [], ◌∷◌, ◌≡◌, refl, arith, Text,
  if◌then◌else◌,
}
use databricks_vscode.Clusters.{
  Loader, Event, Ending, no_client, failed, listed, start_called, stop_called, restart_called,
  checked, replaced, load_ended, timed_out, woke, resumed_one, cleanup_called, new, finish_load,
  start, did_stop, stop, restart, finish_restart, after_load, after_timer, end_load, wake, time_out,
  resume, step, run, check,
}

module _ {C : Type 0} where
  abbrev pub loops : Loader C → ℕ
  loops s = s.loading + (s.sleeping + s.woken)

  -- The flags, the loops and the tasks that wait.
  abbrev Inv : Loader C → Type 0
  Inv s =
      ((s.stopped && s.running) ≡ false)
      × (s.stopped ≡ false → 0 < loops s)
      × (s.running ≡ false → s.sleeping ≡ 0)
      × (s.stopped ≡ true → (s.waiting ≡ 0) × (s.restarting ≡ []))

  start-Inv : (s : Loader C) → Inv s → Inv (start s)
  unfolding start
  start-Inv s h = ground arith

  stop-Inv : (s : Loader C) → Inv s → Inv (stop s)
  unfolding stop
  stop-Inv s h = ground arith

  restart-Inv : (b : Bool) (s : Loader C) → Inv s → Inv (restart b s)
  unfolding restart
  restart-Inv b s h = ground arith

  finish_load-Inv : (e : Ending) (s : Loader C) → Inv s → Inv (finish_load e s)
  unfolding finish_load
  finish_load-Inv no_client s h = h
  finish_load-Inv failed s h = h
  finish_load-Inv (listed ids) s h = h

  finish_load-keeps :
      (e : Ending) (s : Loader C)
      → ((finish_load e s).running ≡ s.running)
        × ((finish_load e s).stopped ≡ s.stopped)
        × ((finish_load e s).sleeping ≡ s.sleeping)
        × ((finish_load e s).waiting ≡ s.waiting)
        × ((finish_load e s).loading ≡ s.loading)
  unfolding finish_load
  finish_load-keeps no_client s = (refl, refl, refl, refl, refl)
  finish_load-keeps failed s = (refl, refl, refl, refl, refl)
  finish_load-keeps (listed ids) s = (refl, refl, refl, refl, refl)

  -- A loop that is not counted goes to sleep or ends.
  abbrev Running : Loader C → Type 0
  Running s = ((s.stopped && s.running) ≡ false) × (s.running ≡ false → s.sleeping ≡ 0)

  after_load-Inv : (s : Loader C) → Running s → Inv (after_load s)
  unfolding after_load did_stop
  after_load-Inv s h = ground arith

  after_timer-Inv : (s : Loader C) → Running s → Inv (after_timer s)
  unfolding after_timer did_stop
  after_timer-Inv s h = ground arith

  end_load-Inv : (e : Ending) (n : ℕ) (s : Loader C) → Inv s → Inv (end_load e n s)
  unfolding end_load
  end_load-Inv e zero s h = h
  end_load-Inv e (suc n) s h =
      after_load-Inv (finish_load e (record s { loading = n }))
        (ground (arith, finish_load-keeps e (record s { loading = n })))

  finish_restart-Inv : (b : Bool) (s : Loader C) → Inv s → Inv (finish_restart b s)
  unfolding finish_restart
  finish_restart-Inv true s h = start-Inv (record s { clusters = [] }) h
  finish_restart-Inv false s h = start-Inv s h

  resume-Inv : (rs : List Bool) (s : Loader C) → Inv s → Inv (resume rs s)
  unfolding resume
  resume-Inv [] s h = h
  resume-Inv (b ∷ rs) s h = finish_restart-Inv b (record s { resumed = rs }) h

  wake-Inv : (n : ℕ) (s : Loader C) → Inv s → Inv (wake n s)
  unfolding wake
  wake-Inv zero s h = h
  wake-Inv (suc n) s h = after_timer-Inv (record s { woken = n }) (ground arith)

  time_out-Inv : (n : ℕ) (s : Loader C) → s.sleeping ≡ n → Inv s → Inv (time_out n s)
  time_out-Inv zero s e h = h
  time_out-Inv (suc n) s e h = ground arith

  checked-Inv :
      (id : Text) (c : C) (keep b : Bool) (s : Loader C)
      → Inv s
      → Inv (if b then check id c keep s else s)
  unfolding check
  checked-Inv id c keep true s h = h
  checked-Inv id c keep false s h = h

  step-Inv : (e : Event C) (s : Loader C) → Inv s → Inv (step e s)
  unfolding step
  step-Inv start_called s h = start-Inv s h
  step-Inv stop_called s h = stop-Inv s h
  step-Inv (restart_called b) s h = restart-Inv b s h
  step-Inv (checked id c keep) s h = checked-Inv id c keep s.running s h
  step-Inv (replaced all) s h = h
  step-Inv cleanup_called s h = h
  step-Inv (load_ended e) s h = end_load-Inv e s.loading s h
  step-Inv timed_out s h = time_out-Inv s.sleeping s refl h
  step-Inv woke s h = wake-Inv s.woken s h
  step-Inv resumed_one s h = resume-Inv s.resumed s h

  run-Inv : (events : List (Event C)) (s : Loader C) → Inv s → Inv (run events s)
  unfolding run
  run-Inv [] s h = h
  run-Inv (e ∷ events) s h = run-Inv events (step e s) (step-Inv e s h)

  reached : (events : List (Event C)) → Inv (run events new)
  reached events = run-Inv events new (ground arith)

  -- After any calls and answers, in any interleaving, once the loader is not to run and no loop is
  -- loading or past its timer: it has stopped, no loop sleeps, and no call of `stop` or `restart`
  -- waits any more.
  pub stop_ends :
      (events : List (Event C))
      → (run events new).running ≡ false
      → (run events new).loading + (run events new).woken ≡ 0
      → ((run events new).stopped ≡ true)
        × ((run events new).sleeping ≡ 0)
        × ((run events new).waiting ≡ 0)
        × ((run events new).restarting ≡ [])
  stop_ends events r l = settled (run events new) (reached events) r l
    where
      settled :
          (s : Loader C)
          → Inv s
          → s.running ≡ false
          → s.loading + s.woken ≡ 0
          → (s.stopped ≡ true) × (s.sleeping ≡ 0) × (s.waiting ≡ 0) × (s.restarting ≡ [])
      settled s h r l = ground arith

  -- A call of `start` while the only loop is still in the load in which it was stopped: there are
  -- two loops behind that load, and the call of `stop` waits on.
  pub start_while_stopping :
      (e : Ending) (s : Loader C)
      → s.stopped ≡ false
      → s.running ≡ false
      → s.loading ≡ 1
      → ((run (start_called ∷ load_ended e ∷ []) s).running ≡ true)
        × ((run (start_called ∷ load_ended e ∷ []) s).loading ≡ 1)
        × ((run (start_called ∷ load_ended e ∷ []) s).sleeping ≡ suc s.sleeping)
        × ((run (start_called ∷ load_ended e ∷ []) s).waiting ≡ s.waiting)
  unfolding run step start end_load after_load
  start_while_stopping no_client s h k l = rw (k, l) (refl, refl, refl, refl)
  start_while_stopping failed s h k l = rw (k, l) (refl, refl, refl, refl)
  start_while_stopping (listed ids) s h k l = rw (k, l) (refl, refl, refl, refl)
