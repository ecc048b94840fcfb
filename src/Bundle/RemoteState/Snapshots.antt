-- ===== src/Bundle/RemoteState/Snapshots.antt =====
-- What the commands of a bundle run with, while its settings change.
use databricks_vscode.Prelude.{
  ℕ, ◌≡◌, refl, ap, ◌∙◌, Bool, Option, none, some, List, [], ◌∷◌, Text, inl, inr, All, Any, All-imp,
  Any-imp, Bool-cases,
}
use databricks_vscode.Bundle.RemoteState.{
  Command, Decision, allowed, paused, Pending, ran, RemoteModel, Event, call, decided, set_target,
  set_auth_provider, project_moves, cache_event, refusal, refuse, pick, decision_of,
  wait_for_decision, with_target, begin, go_on, after_decision, change_target, change_auth_provider,
  same_target, step, run, new,
}
use databricks_vscode.Bundle.RemoteState.Sound.{
  Settings, settings, SoundRuns, SoundWait, SoundRuns-seen, waits-later, SoundRuns-refusal, Picked,
  pick-Picked, ask-Asked, ask-waits, ask-runs,
}

module _ {A G R T : Type 0} where
  record Inv (seen : List (Settings A G R)) (m : RemoteModel A G R T) : Type 0 where
    now : Any (λ s. s ≡ settings m) seen
    waits : All (SoundWait seen m.effects) m.pending
    runs : SoundRuns seen m.effects

  refuse-Inv :
      (seen : List (Settings A G R)) (id : ℕ) (c : Command) (t : Text) (m : RemoteModel A G R T)
      → Inv seen m
      → Inv seen (refuse id c t m)
  refuse-Inv seen id c t m i = record {
    now = i.now;
    waits = waits-later seen (refusal id t c) m.effects m.pending i.waits;
    runs = SoundRuns-refusal seen id t c m.effects i.runs;
  }

  -- The settings at hand are among those seen, so that a snapshot of them is sound.
  wait_for_decision-Inv :
      (seen : List (Settings A G R)) (id : ℕ) (c : Command) (t : Text) (a : A)
      (m : RemoteModel A G R T)
      → m.target ≡ some t
      → m.auth_provider ≡ some a
      → Inv seen m
      → Inv seen (wait_for_decision id c t a m)
  wait_for_decision-Inv seen id c t a m ht ha i = record {
    now = i.now;
    waits = (
      record {
        taken =
            Any-imp
              (λ s e. record {
                target = ap (λ x. x.target) e ∙ ht;
                auth_provider = ap (λ x. x.auth_provider) e ∙ ha;
                project_root = ap (λ x. x.project_root) e;
                auth_guard = ap (λ x. x.auth_guard) e;
                pin = refl;
              })
              seen i.now;
        was_asked = ask-Asked id m.auth_guard t m.effects;
      },
      ask-waits seen id m.auth_guard t m.effects m.pending i.waits,
    );
    runs = ask-runs seen id m.auth_guard t m.effects i.runs;
  }

  with_target-Inv :
      (seen : List (Settings A G R)) (id : ℕ) (c : Command) (t : Option Text) (a : Option A)
      (m : RemoteModel A G R T)
      → m.target ≡ t
      → m.auth_provider ≡ a
      → Inv seen m
      → Inv seen (with_target id c t a m)
  with_target-Inv seen id c none a m ht ha i = refuse-Inv seen id c _ m i
  with_target-Inv seen id c (some t) none m ht ha i = refuse-Inv seen id c _ m i
  with_target-Inv seen id c (some t) (some a) m ht ha i =
      wait_for_decision-Inv seen id c t a m ht ha i

  go_on-Inv :
      (seen : List (Settings A G R)) (p : Pending A G R) (d : Decision) (m : RemoteModel A G R T)
      → SoundWait seen m.effects p
      → Inv seen m
      → Inv seen (go_on p d m)
  go_on-Inv seen p allowed m w i = record {
    now = i.now;
    waits = waits-later seen (ran p.id p.command p.snapshot) m.effects m.pending i.waits;
    runs = (record { guard = p.guard; taken = w.taken; was_asked = w.was_asked }, i.runs);
  }
  go_on-Inv seen p (paused reason) m w i = refuse-Inv seen p.id p.command _ m i

  after_decision-Inv :
      (seen : List (Settings A G R)) (d : Decision)
      (o : Option (Pending A G R × List (Pending A G R))) (m : RemoteModel A G R T)
      → Picked (SoundWait seen m.effects) o
      → Inv seen m
      → Inv seen (after_decision d o m)
  after_decision-Inv seen d none m h i = i
  after_decision-Inv seen d (some (p, rest)) m (h, hs) i =
      go_on-Inv seen p (decision_of p.guard d) (record m { pending = rest }) h
        (record { now = i.now; waits = hs; runs = i.runs })

  -- New settings are seen.
  seen-Inv :
      (seen : List (Settings A G R)) (m n : RemoteModel A G R T)
      → Inv seen m
      → n.pending ≡ m.pending
      → n.effects ≡ m.effects
      → Inv (settings n ∷ seen) n
  seen-Inv seen m n i hp he = record {
    now = inl refl;
    waits =
        rw (hp, he)
          (All-imp (λ p w. record { taken = inr w.taken; was_asked = w.was_asked }) m.pending
            i.waits);
    runs = rw he (SoundRuns-seen seen (settings n) m.effects i.runs);
  }

  module _ (equal : Option A → Option A → Bool) (equal_state : T → T → Bool) (empty : T) where
    change_target-Inv :
        (seen : List (Settings A G R)) (t : Option Text) (m : RemoteModel A G R T)
        → Inv seen m
        → let n = change_target equal equal_state empty t m in Inv (settings n ∷ seen) n
    unfolding change_target
    change_target-Inv seen t m i = elim (Bool-cases (same_target m.target t)) [
      | inl h ↦ rw h (seen-Inv seen m m i refl refl)
      | inr h ↦ rw h (seen-Inv seen m _ i refl refl)
    ]

    step-Inv :
        (seen : List (Settings A G R)) (e : Event A G R T) (m : RemoteModel A G R T)
        → Inv seen m
        → let n = step equal equal_state empty e m in Inv (settings n ∷ seen) n
    unfolding step begin change_auth_provider
    step-Inv seen (call id c) m i =
        seen-Inv seen _ _ (with_target-Inv seen id c m.target m.auth_provider m refl refl i) refl
          refl
    step-Inv seen (decided id d) m i =
        seen-Inv seen _ _
          (after_decision-Inv seen d (pick id m.pending) m
            (pick-Picked (SoundWait seen m.effects) id m.pending i.waits) i)
          refl refl
    step-Inv seen (set_target t) m i = change_target-Inv seen t m i
    step-Inv seen (set_auth_provider a g) m i = seen-Inv seen m _ i refl refl
    step-Inv seen (project_moves r) m i = seen-Inv seen m _ i refl refl
    step-Inv seen (cache_event e) m i = seen-Inv seen m _ i refl refl

    -- The settings that a model has had through some events, the last first.
    pub trail :
        List (Event A G R T) → RemoteModel A G R T → List (Settings A G R) → List (Settings A G R)
    trail [] m seen = seen
    trail (e ∷ es) m seen =
        let n = step equal equal_state empty e m in trail es n (settings n ∷ seen)

    run-Inv :
        (seen : List (Settings A G R)) (es : List (Event A G R T)) (m : RemoteModel A G R T)
        → Inv seen m
        → Inv (trail es m seen) (run equal equal_state empty es m)
    unfolding run trail
    run-Inv seen [] m i = i
    run-Inv seen (e ∷ es) m i =
        let n = step equal equal_state empty e m in
        run-Inv (settings n ∷ seen) es n (step-Inv seen e m i)

    -- However calls, decisions and changes of the settings interleave: each call of the CLI has the
    -- target, the provider and the folder that the model had together at one time, and is pinned if
    -- the model had a guard then; that guard was asked before, for the same target.
    pub runs_in_one_setting :
        (root : R) (es : List (Event A G R T))
        → let start = new equal equal_state empty root in
          SoundRuns
            (trail es start (settings start ∷ []))
            (run equal equal_state empty es start).effects
    runs_in_one_setting root es =
        let i =
          run-Inv _ es (new equal equal_state empty root)
            (record { now = inl refl; waits = tt; runs = tt }) in
        i.runs
