-- ===== src/Cli/Process/Conduct.antt =====
-- When a run of a child process signals the child.
use databricks_vscode.Prelude.{
  ◌≡◌, ◌≢◌, refl, Bool, true, false, none, some, List, [], ◌∷◌, Text, arith, ◌⊎◌, ◌∙◌,
}
use databricks_vscode.Cli.Process.{
  Bytes, Effect, terminated, force_terminated, Run, Token, no_token, quiet, fires, Options, Event,
  stdout_data, stderr_data, stream_error, child_error, close, cancel, grace_over, settle_result,
  armed, live, request_cancel, reject_from_stream_error, on_stdout_data, on_stderr_data, step, run,
  fresh, subscribe, start,
}

-- The calls of the two terminators among the effects.
abbrev pub signals : {E : Type 0} → List (Effect E) → List (Effect E)
signals [] = []
signals (terminated ∷ es) = terminated ∷ signals es
signals (force_terminated ∷ es) = force_terminated ∷ signals es
signals (_ ∷ es) = signals es

abbrev pub was_terminated : {E : Type 0} → List (Effect E) → Bool
was_terminated [] = false
was_terminated (terminated ∷ es) = true
was_terminated (_ ∷ es) = was_terminated es

abbrev pub was_forced : {E : Type 0} → List (Effect E) → Bool
was_forced [] = false
was_forced (force_terminated ∷ es) = true
was_forced (_ ∷ es) = was_forced es

record Inv {D E : Type 0} (r : Run D E) : Type 0 where
  no_subscription : (r.settled ≡ false) ⊎ (r.cancel_sub ≢ live)
  no_timer : (r.settled ≡ false) ⊎ (r.force_kill_timer ≢ armed)
  asked : (r.settled ≡ true) ⊎ (r.cancelled ≡ false) ⊎ (was_terminated r.effects ≡ true)
  escalates :
      (r.settled ≡ true)
      ⊎ (r.cancelled ≡ false)
      ⊎ (r.force_kill_timer ≡ armed)
      ⊎ (was_forced r.effects ≡ true)

module _ {D E : Type 0} (decode : Bytes → Text) (write : D → Bytes → D × Text) (flush : D → Text)
    (o : Options) where
  step-Inv : (e : Event E) (r : Run D E) → Inv r → Inv (step decode write flush o e r)
  unfolding step on_stdout_data on_stderr_data settle_result request_cancel reject_from_stream_error
  step-Inv (stdout_data b) r i = ground (arith, i)
  step-Inv (stderr_data b) r i = ground (arith, i)
  step-Inv (stream_error x) r i = ground (arith, i)
  step-Inv (child_error x) r i = ground (arith, i)
  step-Inv (close c) r i = ground (arith, i)
  step-Inv (cancel none) r i = ground (arith, i)
  step-Inv (cancel (some c)) r i = ground (arith, i)
  step-Inv grace_over r i = ground (arith, i)

  run-Inv : (es : List (Event E)) (r : Run D E) → Inv r → Inv (run decode write flush o es r)
  unfolding run
  run-Inv [] r i = i
  run-Inv (e ∷ es) r i = run-Inv es (step decode write flush o e r) (step-Inv e r i)

  subscribe-Inv : (t : Token) (d : D) → Inv {E = E} (subscribe decode write flush o t (fresh d))
  unfolding subscribe request_cancel settle_result
  subscribe-Inv no_token d = ground arith
  subscribe-Inv quiet d = ground arith
  subscribe-Inv (fires none) d = ground arith
  subscribe-Inv (fires (some c)) d = ground arith

  start-Inv :
      (d : D) (es : List (Event E))
      → Inv (run decode write flush o es (start decode write flush o d))
  unfolding start
  start-Inv d es = run-Inv es _ (subscribe-Inv o.token d)

  step-signals :
      (e : Event E) (r : Run D E)
      → Inv r
      → r.settled ≡ true
      → ((step decode write flush o e r).settled ≡ true)
        × (signals (step decode write flush o e r).effects ≡ signals r.effects)
  unfolding step on_stdout_data on_stderr_data settle_result reject_from_stream_error
  step-signals (stdout_data b) r i h = ground (arith, i)
  step-signals (stderr_data b) r i h = ground (arith, i)
  step-signals (stream_error x) r i h = ground (arith, i)
  step-signals (child_error x) r i h = ground (arith, i)
  step-signals (close c) r i h = ground (arith, i)
  step-signals (cancel closes) r i h = ground (arith, i)
  step-signals grace_over r i h = ground (arith, i)

  run-signals :
      (es : List (Event E)) (r : Run D E)
      → Inv r
      → r.settled ≡ true
      → signals (run decode write flush o es r).effects ≡ signals r.effects
  unfolding run
  run-signals [] r i h = refl
  run-signals (e ∷ es) r i h =
      let (k, l) = step-signals e r i h in
      run-signals es (step decode write flush o e r) (step-Inv e r i) k ∙ l

  -- Once its promise is settled, a run signals the child no more, whatever comes: neither a later
  -- cancellation nor the timer of an earlier one reaches it.
  pub settled_signals_nothing :
      (d : D) (es later : List (Event E))
      → (run decode write flush o es (start decode write flush o d)).settled ≡ true
      → let r = run decode write flush o es (start decode write flush o d) in
        signals (run decode write flush o later r).effects ≡ signals r.effects
  settled_signals_nothing d es later h = run-signals later _ (start-Inv d es) h

  -- A cancelled run that has not settled has terminated the child gracefully, and when its grace
  -- period is over, it has terminated it by force as well.
  pub cancel_escalates :
      (d : D) (es : List (Event E))
      → (run decode write flush o es (start decode write flush o d)).settled ≡ false
      → (run decode write flush o es (start decode write flush o d)).cancelled ≡ true
      → let r = run decode write flush o es (start decode write flush o d) in
        (was_terminated r.effects ≡ true)
        × (was_forced (step decode write flush o grace_over r).effects ≡ true)
  unfolding step
  cancel_escalates d es h c =
      let i = start-Inv d es in (ground (arith, i, h, c), ground (arith, i, h, c))
