-- ===== src/Bundle/RemoteState/Sound.antt =====
-- What makes a command of a bundle sound, and what keeps it so.
use databricks_vscode.Prelude.{
  ℕ, ◌≡◌, refl, Option, none, some, List, [], ◌∷◌, Text, ◌==◌, is_some, inl, inr, All, Any, All-imp,
  Bool-cases,
}
use databricks_vscode.Bundle.RemoteState.{
  Command, deploy, destroy, sync, get_run_command, read_state, Snapshot, Pending, Effect, asked,
  ran, threw, no_state, RemoteModel, refusal, ask, put_back, pick,
}

-- The settings of a model at one time.
pub record Settings (A G R : Type 0) : Type 0 where
  pub target : Option Text
  pub auth_provider : Option A
  pub auth_guard : Option G
  pub project_root : R

module _ {A G R : Type 0} where
  abbrev pub settings : {T : Type 0} → RemoteModel A G R T → Settings A G R
  settings m = record {
    target = m.target;
    auth_provider = m.auth_provider;
    auth_guard = m.auth_guard;
    project_root = m.project_root;
  }

  -- A snapshot that was taken of these settings.
  pub record Taken (x : Snapshot A R) (guard : Option G) (s : Settings A G R) : Type 0 where
    pub target : s.target ≡ some x.target
    pub auth_provider : s.auth_provider ≡ some x.auth_provider
    pub project_root : s.project_root ≡ x.project_root
    pub auth_guard : s.auth_guard ≡ guard
    pub pin : is_some guard ≡ x.pin

  -- The guard was asked by this task for this target.
  abbrev pub Asked : ℕ → Text → Option G → List (Effect A G R) → Type 0
  Asked id target none es = Unit
  Asked id target (some g) es = Any (λ e. e ≡ asked id g target) es

  -- A snapshot of settings that the model had at one time, of which the guard, if there was one, was
  -- asked for the target of the snapshot.
  pub record Sound (seen : List (Settings A G R)) (earlier : List (Effect A G R)) (id : ℕ)
      (x : Snapshot A R) : Type 0 where
    pub guard : Option G
    pub taken : Any (Taken x guard) seen
    pub was_asked : Asked id x.target guard earlier

  abbrev pub SoundRuns : List (Settings A G R) → List (Effect A G R) → Type 0
  SoundRuns seen [] = Unit
  SoundRuns seen (ran id command x ∷ es) = Sound seen es id x × SoundRuns seen es
  SoundRuns seen (_ ∷ es) = SoundRuns seen es

  pub record SoundWait (seen : List (Settings A G R)) (effects : List (Effect A G R))
      (p : Pending A G R) : Type 0 where
    pub taken : Any (Taken p.snapshot p.guard) seen
    pub was_asked : Asked p.id p.snapshot.target p.guard effects

  pub Asked-later :
      (id : ℕ) (target : Text) (guard : Option G) (e : Effect A G R) (es : List (Effect A G R))
      → Asked id target guard es
      → Asked id target guard (e ∷ es)
  Asked-later id target none e es h = tt
  Asked-later id target (some g) e es h = inr h

  pub SoundRuns-seen :
      (seen : List (Settings A G R)) (s : Settings A G R) (es : List (Effect A G R))
      → SoundRuns seen es
      → SoundRuns (s ∷ seen) es
  SoundRuns-seen seen s [] h = tt
  SoundRuns-seen seen s (ran id command x ∷ es) (h, hs) = (
    record { guard = h.guard; taken = inr h.taken; was_asked = h.was_asked },
    SoundRuns-seen seen s es hs,
  )
  SoundRuns-seen seen s (asked id g t ∷ es) h = SoundRuns-seen seen s es h
  SoundRuns-seen seen s (threw id t ∷ es) h = SoundRuns-seen seen s es h
  SoundRuns-seen seen s (no_state id ∷ es) h = SoundRuns-seen seen s es h

  -- A guard that was asked stays asked.
  pub waits-later :
      (seen : List (Settings A G R)) (e : Effect A G R) (es : List (Effect A G R))
      (ps : List (Pending A G R))
      → All (SoundWait seen es) ps
      → All (SoundWait seen (e ∷ es)) ps
  waits-later seen e es ps h =
      All-imp
        (λ p w. record {
          taken = w.taken;
          was_asked = Asked-later p.id p.snapshot.target p.guard e es w.was_asked;
        })
        ps h

  pub SoundRuns-refusal :
      (seen : List (Settings A G R)) (id : ℕ) (t : Text) (c : Command) (es : List (Effect A G R))
      → SoundRuns seen es
      → SoundRuns seen (refusal id t c ∷ es)
  SoundRuns-refusal seen id t deploy es h = h
  SoundRuns-refusal seen id t destroy es h = h
  SoundRuns-refusal seen id t sync es h = h
  SoundRuns-refusal seen id t get_run_command es h = h
  SoundRuns-refusal seen id t read_state es h = h

  abbrev pub Picked :
      (Pending A G R → Type 0) → Option (Pending A G R × List (Pending A G R)) → Type 0
  Picked P none = Unit
  Picked P (some (p, rest)) = P p × All P rest

  pub put_back-Picked :
      (P : Pending A G R → Type 0) (q : Pending A G R)
      (o : Option (Pending A G R × List (Pending A G R)))
      → P q
      → Picked P o
      → Picked P (put_back q o)
  put_back-Picked P q none h k = tt
  put_back-Picked P q (some (p, rest)) h (k, ks) = (k, (h, ks))

  pub pick-Picked :
      (P : Pending A G R → Type 0) (id : ℕ) (ps : List (Pending A G R))
      → All P ps
      → Picked P (pick id ps)
  unfolding pick
  pick-Picked P id [] h = tt
  pick-Picked P id (q ∷ ps) (h, hs) = elim (Bool-cases (q.id == id)) [
    | inl found ↦ rw found (h, hs)
    | inr other ↦ rw other (put_back-Picked P q (pick id ps) h (pick-Picked P id ps hs))
  ]

  pub ask-Asked :
      (id : ℕ) (g : Option G) (t : Text) (es : List (Effect A G R)) → Asked id t g (ask id g t es)
  ask-Asked id none t es = tt
  ask-Asked id (some g) t es = inl refl

  pub ask-waits :
      (seen : List (Settings A G R)) (id : ℕ) (g : Option G) (t : Text) (es : List (Effect A G R))
      (ps : List (Pending A G R))
      → All (SoundWait seen es) ps
      → All (SoundWait seen (ask id g t es)) ps
  ask-waits seen id none t es ps h = h
  ask-waits seen id (some g) t es ps h = waits-later seen (asked id g t) es ps h

  pub ask-runs :
      (seen : List (Settings A G R)) (id : ℕ) (g : Option G) (t : Text) (es : List (Effect A G R))
      → SoundRuns seen es
      → SoundRuns seen (ask id g t es)
  ask-runs seen id none t es h = h
  ask-runs seen id (some g) t es h = h
