-- ===== src/Locking/CachedValue.antt =====
-- locking/CachedValue.ts. `getter` is a parameter of the class: it settles as an event says. So is
-- `lodash.isEqualWith`, here `equal`. `fired` are the events of `onDidChange`, the newest first, and
-- `answers` are what the readers of `value` got, the newest first. No value of `T` is `null`.
pub mod Laws
mod Tests
use databricks_vscode.Prelude.{
  ℕ, Bool, true, false, not, ◌&&◌, ◌||◌, String, Option, none, some, List, [], ◌∷◌, is_some,
  if◌then◌else◌,
}
use databricks_vscode.Locking.Mutex.{Mutex, unlocked, wait, signal}

-- The task inside the mutex: it was let through and has not run on, or it awaits the getter.
pub data Holder : Type 0 where
  nobody : Holder
  entered loading : ℕ → Holder

pub data Answer (T : Type 0) : Type 0 where
  value_of : Option T → Answer T
  thrown : String → Answer T

pub record CachedValue (T : Type 0) : Type 0 where
  pub value : Option T
  pub dirty : Bool
  pub mutex : Mutex ℕ
  pub holder : Holder
  pub fired : List (Option T × T)
  pub answers : List (ℕ × Answer T)

-- `get value` by a task, `refresh` by a task, the task behind `wait` going on, the promise of the
-- getter settling, the `finally` of `refresh`, and the methods `set` and `invalidate`.
pub data Event (T : Type 0) : Type 0 where
  read refresh : ℕ → Event T
  goes_on refresh_ends invalidate : Event T
  getter_resolves set_to : T → Event T
  getter_rejects : String → Event T

module _ {T : Type 0} (equal : T → T → Bool) where
  abbrev pub fresh : CachedValue T
  fresh = record {
    value = none;
    dirty = true;
    mutex = unlocked;
    holder = nobody;
    fired = [];
    answers = [];
  }

  abbrev pub same_value : T → Option T → Bool
  same_value v none = false
  same_value v (some w) = equal v w

  -- `set`
  unfoldable pub set : T → CachedValue T → CachedValue T
  set v c =
      if same_value v c.value
      then c
      else record c { value = some v; fired = (c.value, v) ∷ c.fired }

  abbrev pub holder_of : Option ℕ → Holder
  holder_of none = nobody
  holder_of (some task) = entered task

  -- The inner `finally`, the answer, and the `finally` of `synchronise`.
  unfoldable pub finish : ℕ → Answer T → CachedValue T → CachedValue T
  unfolding signal
  finish task answer c =
      let (m, next) = signal c.mutex in
      record c {
        dirty = false;
        mutex = m;
        holder = holder_of next;
        answers = (task, answer) ∷ c.answers;
      }

  -- The function inside `synchronise`, up to its `await`.
  unfoldable pub begin : ℕ → CachedValue T → CachedValue T
  unfolding finish
  begin task c =
      if c.dirty || not (is_some c.value)
      then record c { holder = loading task }
      else finish task (value_of c.value) c

  abbrev pub enter : ℕ → CachedValue T → Mutex ℕ × Bool → CachedValue T
  enter task c (m, true) = record c { mutex = m; holder = entered task }
  enter task c (m, false) = record c { mutex = m }

  -- `get value`, up to the `await` of `wait`.
  unfoldable pub call : ℕ → CachedValue T → CachedValue T
  unfolding wait
  call task c = enter task c (wait task c.mutex)

  abbrev pub go_on : Holder → CachedValue T → CachedValue T
  unfolding begin
  go_on (entered task) c = begin task c
  go_on _ c = c

  abbrev pub load : T → Holder → CachedValue T → CachedValue T
  unfolding set finish
  load v (loading task) c = let d = set v c in finish task (value_of d.value) d
  load v _ c = c

  abbrev pub fail : String → Holder → CachedValue T → CachedValue T
  unfolding finish
  fail e (loading task) c = finish task (thrown e) c
  fail e _ c = c

  unfoldable pub step : Event T → CachedValue T → CachedValue T
  unfolding set call
  step (read task) c = call task c
  step (refresh task) c = call task (record c { dirty = true })
  step goes_on c = go_on c.holder c
  step refresh_ends c = record c { dirty = false }
  step invalidate c = record c { dirty = true }
  step (getter_resolves v) c = load v c.holder c
  step (set_to v) c = set v c
  step (getter_rejects e) c = fail e c.holder c

  unfoldable pub run : List (Event T) → CachedValue T → CachedValue T
  run [] c = c
  run (e ∷ es) c = run es (step e c)
