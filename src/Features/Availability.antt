-- ===== src/Features/Availability.antt =====
-- The availability is that of the steps, and listeners know it.
use databricks_vscode.Prelude.{
  ◌≡◌, refl, sym, ap, ◌∙◌, ◌⊎◌, inl, inr, Bool, true, false, ◌&&◌, ◌||◌, Option, none, some, List,
  [], ◌∷◌, ◌++◌, Text, arith, Option-cases, All, any, same, if◌then◌else◌, ◌↔◌,
}
use databricks_vscode.Features.{
  FeatureStepState, Verifier, unverified, is_true, register, new, find_step, set_step,
  all_available, Change, reject_step, accept_step, announce, update_found, update_step,
  apply_change, kept, run,
}
use databricks_vscode.Features.Steps.{told_of, last_told, steps_told}

abbrev pub ids : List (Text × FeatureStepState) → List Text
ids [] = []
ids ((key, s) ∷ steps) = key ∷ ids steps

-- The names, each once, in the order in which they first come, behind those that came before.
pub distinct : (seen names : List Text) → List Text
distinct seen [] = seen
distinct seen (n ∷ names) =
    distinct (if any (λ k. same k n) seen then seen else seen ++ n ∷ []) names

ids-set_step :
    (id : Text) (s : FeatureStepState) (steps : List (Text × FeatureStepState))
    → ids (set_step id s steps)
      ≡ (if any (λ k. same k id) (ids steps) then ids steps else ids steps ++ id ∷ [])
unfolding set_step
ids-set_step id s [] = refl
ids-set_step id s ((key, t) ∷ steps) = ground (arith, ids-set_step id s steps)

found_id :
    (id : Text) (old : FeatureStepState) (steps : List (Text × FeatureStepState))
    → find_step id steps ≡ some old
    → any (λ k. same k id) (ids steps) ≡ true
unfolding find_step
found_id id old [] h = cc
found_id id old ((key, t) ∷ steps) h = ground (arith, h, found_id id old steps)

set_step-ids :
    (id : Text) (old s : FeatureStepState) (steps : List (Text × FeatureStepState))
    → find_step id steps ≡ some old
    → ids (set_step id s steps) ≡ ids steps
set_step-ids id old s steps h = ground (arith, ids-set_step id s steps, found_id id old steps h)

ids-register :
    (names : List Text) (steps : List (Text × FeatureStepState))
    → ids (register names steps) ≡ distinct (ids steps) names
unfolding register distinct
ids-register [] steps = refl
ids-register (n ∷ names) steps =
    ids-register names (set_step n unverified steps)
    ∙ ap (λ seen. distinct seen names) (ids-set_step n unverified steps)

-- The step stands in the way of nothing: it is available, or marked as optional.
abbrev pub Passes : Text × FeatureStepState → Type 0
Passes (id, s) = (s.available ≡ true) ⊎ (s.optional ≡ some true)

is_true-eq : (o : Option Bool) → is_true o ≡ true → o ≡ some true
is_true-eq none h = cc
is_true-eq (some true) h = refl
is_true-eq (some false) h = cc

passes_iff :
    (available : Bool) (optional : Option Bool)
    → ((available || is_true optional) ≡ true) ↔ ((available ≡ true) ⊎ (optional ≡ some true))
passes_iff true optional = ((λ h. inl refl), (λ h. refl))
passes_iff false optional =
    ((λ h. inr (is_true-eq optional h)), (λ h. elim h [ inl y ↦ cc | inr y ↦ rw y refl ]))

and_iff {ℓ κ} :
    {P : Type ℓ} {Q : Type κ} (a b : Bool)
    → ((a ≡ true) ↔ P)
    → ((b ≡ true) ↔ Q)
    → ((a && b) ≡ true) ↔ (P × Q)
and_iff true b p q = ((λ h. (p.0 refl, q.0 h)), (λ h. q.1 h.1))
and_iff false b p q = ((λ h. cc), (λ h. p.1 h.0))

all_available_iff :
    (steps : List (Text × FeatureStepState)) → (all_available steps ≡ true) ↔ All Passes steps
unfolding all_available
all_available_iff [] = ((λ h. tt), (λ h. refl))
all_available_iff ((id, s) ∷ steps) =
    and_iff (s.available || is_true s.optional) (all_available steps)
      (passes_iff s.available s.optional) (all_available_iff steps)

module _ (equal : FeatureStepState → FeatureStepState → Bool) where
  -- Nothing has changed yet, or the feature is available exactly if each step is available or
  -- optional; the steps are those of the constructor, each once; and listeners heard the
  -- availability.
  pub record Sound (names : List Text) (v : Verifier) : Type 0 where
    pub steps_decide : (v ≡ new names) ⊎ ((v.available ≡ true) ↔ All Passes v.steps)
    pub registered : ids v.steps ≡ distinct [] names
    pub known : v.heard ≡ v.available

  announced :
      (before : Bool) (old s : FeatureStepState) (v : Verifier)
      → v.heard ≡ before
      → ((announce equal before old s v).heard ≡ v.available)
        × ((announce equal before old s v).available ≡ v.available)
        × ((announce equal before old s v).steps ≡ v.steps)
  unfolding announce
  announced before old s v h = (ground arith, ground arith, ground arith)

  found-Sound :
      (names : List Text) (old : FeatureStepState) (id : Text) (s : FeatureStepState) (v : Verifier)
      → Sound names v
      → find_step id v.steps ≡ some old
      → Sound names (kept equal (update_found equal (some old) id s v) v)
  unfolding update_found
  found-Sound names old id s v k found =
      let steps = set_step id s v.steps in
      let w : Verifier = record v { steps = steps; available = all_available steps } in
      let (hears, decides, same_steps) = announced v.available old s w k.known in
      record {
        steps_decide = inr (rw (decides, same_steps) (all_available_iff steps));
        registered = ap ids same_steps ∙ (set_step-ids id old s v.steps found ∙ k.registered);
        known = hears ∙ sym decides;
      }

  update-Sound :
      (names : List Text) (id : Text) (s : FeatureStepState) (v : Verifier)
      → Sound names v
      → Sound names (kept equal (update_step equal id s v) v)
  unfolding update_step
  update-Sound names id s v k = elim (Option-cases (find_step id v.steps)) [
    | inl missing ↦ rw (update_step, missing) k
    | inr (old, found) ↦ rw (update_step, found) (found-Sound names old id s v k found)
  ]

  run-Sound :
      (names : List Text) (cs : List (Change equal)) (v : Verifier)
      → Sound names v
      → Sound names (run equal cs v)
  unfolding run apply_change
  run-Sound names [] v k = k
  run-Sound names (reject_step id title message disabled optional ∷ cs) v k =
      run-Sound names cs _ (update-Sound names id _ v k)
  run-Sound names (accept_step id title message warning ∷ cs) v k =
      run-Sound names cs _ (update-Sound names id _ v k)

  -- After any accepted and rejected steps, known or unknown: either nothing has changed, or the
  -- feature is available exactly if each step is available or optional. The steps are those that
  -- the constructor registered, each name once, in the order in which the names first came, and the
  -- last event told the current availability. A step is available if its last change accepted it,
  -- and optional as its last rejection says, unless it was accepted since; before any change it is
  -- neither, and a name that was not registered has no step.
  pub availability_known :
      (names : List Text) (cs : List (Change equal)) (id : Text)
      → Sound names (run equal cs (new names))
        × (told_of (find_step id (run equal cs (new names)).steps)
            ≡ last_told equal cs id
                (if any (λ n. same n id) names then some (false, none) else none))
  unfolding new
  availability_known names cs id = (
    run-Sound names cs (new names)
        (record { steps_decide = inl refl; registered = ids-register names []; known = refl }),
    steps_told equal names cs id,
  )
