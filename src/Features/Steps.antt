-- ===== src/Features/Steps.antt =====
-- The states of the steps are those that the last changes gave them.
use databricks_vscode.Prelude.{
  ◌≡◌, refl, sym, ap, ◌∙◌, inl, inr, Bool, true, false, Option, none, some, List, [], ◌∷◌, Text,
  arith, Option-cases, Bool-cases, any, same, same_iff, if◌then◌else◌,
}
use databricks_vscode.Features.{
  FeatureStepState, Verifier, unverified, register, new, find_step, set_step, all_available, Change,
  reject_step, accept_step, announce, update_found, update_step, apply_change, kept, run,
}

-- Whether a step is available, and what is said of its being optional.
abbrev pub told_of : Option FeatureStepState → Option (Bool × Option Bool)
told_of none = none
told_of (some s) = some (s.available, s.optional)

-- A step that there is gets a new state.
abbrev pub replaced : Bool × Option Bool → Option (Bool × Option Bool) → Option (Bool × Option Bool)
replaced told none = none
replaced told (some old) = some told

same_trans : (s t u : Text) → same s t ≡ true → same s u ≡ same t u
same_trans s t u h = ap (λ x. same x u) ((same_iff s t).0 h)

find_step-set_step :
    (id key : Text) (s : FeatureStepState) (steps : List (Text × FeatureStepState))
    → find_step id (set_step key s steps) ≡ (if same key id then some s else find_step id steps)
unfolding find_step set_step
find_step-set_step id key s [] = ground arith
find_step-set_step id key s ((k, t) ∷ steps) = elim (Bool-cases (same k key)) [
  | inl y ↦ ground (arith, y, same_trans k key id y)
  | inr n ↦ elim (Bool-cases (same k id)) [
    | inl at ↦ ground (arith, n, at, same_trans k id key at, same_iff key id, same_iff id key)
    | inr off ↦ ground (arith, n, off, find_step-set_step id key s steps)
  ]
]

find_step-register :
    (id : Text) (names : List Text) (steps : List (Text × FeatureStepState))
    → told_of (find_step id (register names steps))
      ≡ (if any (λ n. same n id) names then some (false, none) else told_of (find_step id steps))
unfolding register
find_step-register id [] steps = refl
find_step-register id (n ∷ names) steps = ground (
  arith,
  find_step-register id names (set_step n unverified steps),
  find_step-set_step id n unverified steps,
)

module _ (equal : FeatureStepState → FeatureStepState → Bool) where
  -- The step that a change names, and what it says of it.
  abbrev pub named : Change equal → Text
  named (reject_step id title message disabled optional) = id
  named (accept_step id title message warning) = id

  abbrev pub says_of : Change equal → Bool × Option Bool
  says_of (reject_step id title message disabled optional) = (false, optional)
  says_of (accept_step id title message warning) = (true, none)

  -- What the changes leave of a step.
  pub last_told :
      List (Change equal) → Text → Option (Bool × Option Bool) → Option (Bool × Option Bool)
  last_told [] id old = old
  last_told (c ∷ cs) id old =
      last_told cs id (if same (named c) id then replaced (says_of c) old else old)

  announce-steps :
      (before : Bool) (old s : FeatureStepState) (v : Verifier)
      → (announce equal before old s v).steps ≡ v.steps
  unfolding announce
  announce-steps before old s v = ground arith

  same_step :
      (id key : Text) (steps : List (Text × FeatureStepState))
      → same key id ≡ true
      → find_step id steps ≡ find_step key steps
  same_step id key steps h = ap (λ x. find_step x steps) (sym ((same_iff key id).0 h))

  found-told :
      (id key : Text) (old s : FeatureStepState) (v : Verifier)
      → find_step key v.steps ≡ some old
      → told_of (find_step id (kept equal (update_found equal (some old) key s v) v).steps) ≡ (
          if same key id
          then replaced (s.available, s.optional) (told_of (find_step id v.steps))
          else told_of (find_step id v.steps))
  unfolding update_found
  found-told id key old s v found =
      let steps = set_step key s v.steps in
      let w : Verifier = record v { steps = steps; available = all_available steps } in
      rw (announce-steps v.available old s w)
        (ground (arith, found, find_step-set_step id key s v.steps, same_step id key v.steps))

  update_step-told :
      (id key : Text) (s : FeatureStepState) (v : Verifier)
      → told_of (find_step id (kept equal (update_step equal key s v) v).steps) ≡ (
          if same key id
          then replaced (s.available, s.optional) (told_of (find_step id v.steps))
          else told_of (find_step id v.steps))
  unfolding update_step update_found
  update_step-told id key s v = elim (Option-cases (find_step key v.steps)) [
    | inl missing ↦ rw (update_step, missing) (ground (arith, missing, same_step id key v.steps))
    | inr (old, found) ↦ rw (update_step, found) (found-told id key old s v found)
  ]

  apply_change-told :
      (id : Text) (c : Change equal) (v : Verifier)
      → told_of (find_step id (kept equal (apply_change equal c v) v).steps) ≡ (
          if same (named c) id
          then replaced (says_of c) (told_of (find_step id v.steps))
          else told_of (find_step id v.steps))
  unfolding apply_change
  apply_change-told id (reject_step key title message disabled optional) v =
      update_step-told id key _ v
  apply_change-told id (accept_step key title message warning) v = update_step-told id key _ v

  run-told :
      (id : Text) (cs : List (Change equal)) (v : Verifier)
      → told_of (find_step id (run equal cs v).steps)
        ≡ last_told cs id (told_of (find_step id v.steps))
  unfolding run last_told
  run-told id [] v = refl
  run-told id (c ∷ cs) v =
      run-told id cs (kept equal (apply_change equal c v) v)
      ∙ ap (last_told cs id) (apply_change-told id c v)

  -- After any changes, a registered step has the state of its last change, or else the first one.
  pub steps_told :
      (names : List Text) (cs : List (Change equal)) (id : Text)
      → told_of (find_step id (run equal cs (new names)).steps)
        ≡ last_told cs id (if any (λ n. same n id) names then some (false, none) else none)
  unfolding new
  steps_told names cs id =
      run-told id cs (new names)
      ∙ ap (last_told cs id) (unfold find_step in find_step-register id names [])
