-- ===== src/Locking/CachedValue/Laws.antt =====
-- What the readers of a cached value get, and what its events report.
use databricks_vscode.Prelude.{
  ℕ, ◌≡◌, refl, Bool, true, false, not, ◌||◌, String, Option, none, some, List, [], ◌∷◌, is_some,
  arith, Bool-cases, Option-cases, inl, inr,
}
use databricks_vscode.Locking.Mutex.{unlocked}
use databricks_vscode.Locking.CachedValue.{
  Holder, nobody, entered, loading, Answer, value_of, thrown, CachedValue, Event, read, refresh,
  goes_on, refresh_ends, invalidate, getter_resolves, set_to, getter_rejects, fresh, same_value,
  set, finish, begin, call, go_on, load, fail, step, run,
}

module _ {T : Type 0} (equal : T → T → Bool) where
  -- The events lead from `null` to the value: each starts from the value that the one before it
  -- brought, and brings one that differs from it.
  abbrev pub Changes : Option T → List (Option T × T) → Type 0
  Changes value [] = value ≡ none
  Changes value ((old, new) ∷ earlier) =
      (value ≡ some new) × (same_value equal new old ≡ false) × Changes old earlier

  -- No reader gets `null`.
  abbrev pub Answered : List (ℕ × Answer T) → Type 0
  Answered [] = Unit
  Answered ((task, thrown e) ∷ answers) = Answered answers
  Answered ((task, value_of v) ∷ answers) = (is_some v ≡ true) × Answered answers

  record Inv (c : CachedValue T) : Type 0 where
    changes : Changes c.value c.fired
    answered : Answered c.answers

  set-Inv : (v : T) (c : CachedValue T) → Inv c → Inv (set equal v c)
  unfolding set
  set-Inv v c i = elim (Bool-cases (same_value equal v c.value)) [
    | inl kept ↦ rw kept i
    | inr new ↦ rw new (record { changes = (refl, new, i.changes); answered = i.answered })
  ]

  set-value : (v : T) (c : CachedValue T) → is_some (set equal v c).value ≡ true
  unfolding set
  set-value v c = elim (Option-cases c.value) [
    | inl empty ↦ ground arith
    | inr (w, kept) ↦ ground arith
  ]

  finish-Inv :
      (task : ℕ) (o : Option T) (c : CachedValue T)
      → is_some o ≡ true
      → Inv c
      → Inv (finish equal task (value_of o) c)
  unfolding finish
  finish-Inv task o c h i = record { changes = i.changes; answered = (h, i.answered) }

  begin-Inv : (task : ℕ) (c : CachedValue T) → Inv c → Inv (begin equal task c)
  unfolding begin
  begin-Inv task c i = elim (Bool-cases (c.dirty || not (is_some c.value))) [
    | inl reload ↦ rw reload (record { changes = i.changes; answered = i.answered })
    | inr cached ↦ rw cached (finish-Inv task c.value c (ground arith) i)
  ]

  call-Inv : (task : ℕ) (c : CachedValue T) → Inv c → Inv (call equal task c)
  unfolding call
  call-Inv task c i = record {
    changes = ground (arith, i.changes);
    answered = ground (arith, i.answered);
  }

  go_on-Inv : (h : Holder) (c : CachedValue T) → Inv c → Inv (go_on equal h c)
  unfolding go_on
  go_on-Inv nobody c i = i
  go_on-Inv (loading task) c i = i
  go_on-Inv (entered task) c i = begin-Inv task c i

  load-Inv : (v : T) (h : Holder) (c : CachedValue T) → Inv c → Inv (load equal v h c)
  unfolding load
  load-Inv v nobody c i = i
  load-Inv v (entered task) c i = i
  load-Inv v (loading task) c i =
      finish-Inv task (set equal v c).value (set equal v c) (set-value v c) (set-Inv v c i)

  fail-Inv : (e : String) (h : Holder) (c : CachedValue T) → Inv c → Inv (fail equal e h c)
  unfolding finish
  fail-Inv e nobody c i = i
  fail-Inv e (entered task) c i = i
  fail-Inv e (loading task) c i = record { changes = i.changes; answered = i.answered }

  step-Inv : (e : Event T) (c : CachedValue T) → Inv c → Inv (step equal e c)
  unfolding step
  step-Inv (read task) c i = call-Inv task c i
  step-Inv (refresh task) c i =
      call-Inv task (record c { dirty = true })
        (record { changes = i.changes; answered = i.answered })
  step-Inv goes_on c i = go_on-Inv c.holder c i
  step-Inv refresh_ends c i = record { changes = i.changes; answered = i.answered }
  step-Inv invalidate c i = record { changes = i.changes; answered = i.answered }
  step-Inv (getter_resolves v) c i = load-Inv v c.holder c i
  step-Inv (set_to v) c i = set-Inv v c i
  step-Inv (getter_rejects e) c i = fail-Inv e c.holder c i

  run-Inv : (es : List (Event T)) (c : CachedValue T) → Inv c → Inv (run equal es c)
  unfolding run
  run-Inv [] c i = i
  run-Inv (e ∷ es) c i = run-Inv es (step equal e c) (step-Inv e c i)

  -- However readers, `set`, `invalidate` and the getter interleave: no reader ever gets `null`, and
  -- the events of `onDidChange` are a chain of real changes from `null` to the value, each starting
  -- from the value that the one before it brought.
  pub value-Changes :
      (es : List (Event T))
      → let c = run equal es (fresh equal) in Changes c.value c.fired × Answered c.answers
  value-Changes es =
      let i = run-Inv es (fresh equal) (record { changes = refl; answered = tt }) in
      (i.changes, i.answered)

  -- An invalidation while the getter runs is lost: the state that the getter's end leaves, whether
  -- it resolves or rejects, is the same as without the invalidation, and it is not dirty.
  pub invalidate_lost :
      (c : CachedValue T) (task : ℕ) (v : T) (e : String)
      → c.holder ≡ loading task
      → (run equal (invalidate ∷ getter_resolves v ∷ []) c ≡ step equal (getter_resolves v) c)
        × (run equal (invalidate ∷ getter_rejects e ∷ []) c ≡ step equal (getter_rejects e) c)
        × ((step equal (getter_resolves v) c).dirty ≡ false)
        × ((step equal (getter_rejects e) c).dirty ≡ false)
  unfolding run step set finish
  invalidate_lost c task v e h = (ground arith, ground arith, ground arith, ground arith)

  -- A failed reload is not tried again: the reader that started it gets the error, and the next
  -- reader gets the old value.
  pub failed_reload_forgotten :
      (c : CachedValue T) (v : T) (e : String) (first second : ℕ)
      → c.value ≡ some v
      → c.mutex ≡ unlocked
      → (run equal
          (invalidate ∷ read first ∷ goes_on ∷ getter_rejects e ∷ read second ∷ goes_on ∷ [])
          c).answers
        ≡ (second, value_of (some v)) ∷ (first, thrown e) ∷ c.answers
  unfolding run step call begin finish
  failed_reload_forgotten c v e first second h m = ground arith
