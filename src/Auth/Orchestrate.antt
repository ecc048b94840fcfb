-- ===== src/Auth/Orchestrate.antt =====
-- configuration/auth/orchestrate.ts. A step is a function of the state `S` of the program and its surroundings;
-- the promise that it returns is resolved or rejected, together with the state that it leaves.
pub mod Runs
mod Tests
use databricks_vscode.Prelude.{ℕ, zero, suc, Bool, true, false, String, if◌then◌else◌}

pub data StepResult (N R : Type 0) : Type 0 where
  success : R → StepResult N R
  next : N → StepResult N R
  error : String → StepResult N R

-- How a promise settles.
pub data Settled (A : Type 0) : Type 0 where
  resolved : A → Settled A
  rejected : String → Settled A

-- `failed` is an error of a step, and `loop_error` the `OrchestrationLoopError`.
pub data Outcome (R : Type 0) : Type 0 where
  done : R → Outcome R
  failed : String → Outcome R
  loop_error : Outcome R

module _ {S N R : Type 0} (cancelled : S → Bool)
    (steps : N → S → Settled (StepResult N R) × S) where
  -- The result of the race, with the rest of the loop for the `next` step.
  unfoldable pub settle : (N → S → Outcome R × S) → Settled (StepResult N R) → S → Outcome R × S
  settle again (resolved (success r)) s = if cancelled s then (loop_error, s) else (done r, s)
  settle again (resolved (error e)) s = if cancelled s then (loop_error, s) else (failed e, s)
  settle again (resolved (next n)) s =
      let rest = again n s in if cancelled s then (loop_error, s) else rest
  settle again (rejected e) s = if cancelled s then (loop_error, s) else (failed e, s)

  -- `left` is `maxSteps - counter`. With no step left, or cancelled, the loop throws.
  unfoldable pub orchestrate : (left : ℕ) → N → S → Outcome R × S
  unfolding settle
  orchestrate zero step s = (loop_error, s)
  orchestrate (suc left) step s =
      let (result, t) = steps step s in
      let rest = settle (orchestrate left) result t in if cancelled s then (loop_error, s) else rest
