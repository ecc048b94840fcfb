-- ===== src/Features.antt =====
-- packages/databricks-vscode/src/feature-manager/MultiStepAccessVerfier.ts: the steps of a check of
-- a feature's availability. `lodash.isEqual` of two steps without their actions is a parameter.
pub mod Availability
pub mod Steps
mod Tests
use databricks_vscode.Prelude.{
  Bool, true, false, not, ◌&&◌, ◌||◌, Option, none, some, List, [], ◌∷◌, Text, same, if◌then◌else◌,
}

-- An absent field is `none`. The action of a step is left out.
pub record FeatureStepState : Type 0 where
  pub available : Bool
  pub title : Option Text
  pub message : Option Text
  pub warning : Option Text
  pub optional : Option Bool
  pub is_disabled_by_ff : Option Bool

-- The map of the steps is the list of its entries in the order of their insertion. `heard` is the
-- availability that the last event reported, and `false` before the first.
pub record Verifier : Type 0 where
  pub available : Bool
  pub steps : List (Text × FeatureStepState)
  pub heard : Bool

abbrev pub unverified : FeatureStepState
unverified = record {
  available = false;
  title = none;
  message = none;
  warning = none;
  optional = none;
  is_disabled_by_ff = none;
}

-- `get` of the map
unfoldable pub find_step : Text → List (Text × FeatureStepState) → Option FeatureStepState
find_step id [] = none
find_step id ((key, s) ∷ steps) =
    let rest = find_step id steps in if same key id then some s else rest

-- `set` of the map: a key that it has keeps its place, a new one comes last.
unfoldable pub set_step :
    Text → FeatureStepState → List (Text × FeatureStepState) → List (Text × FeatureStepState)
set_step id new_state [] = (id, new_state) ∷ []
set_step id new_state ((key, s) ∷ steps) =
    let rest = (key, s) ∷ set_step id new_state steps in
    if same key id then (key, new_state) ∷ steps else rest

-- The loop of the constructor. A name that comes again has one entry.
unfoldable pub register :
    List Text → List (Text × FeatureStepState) → List (Text × FeatureStepState)
unfolding set_step
register [] steps = steps
register (id ∷ ids) steps = register ids (set_step id unverified steps)

unfoldable pub new : List Text → Verifier
unfolding register
new ids = record { available = false; steps = register ids []; heard = false }

-- `value === true`
abbrev pub is_true : Option Bool → Bool
is_true (some true) = true
is_true _ = false

-- The reduction over the steps
unfoldable pub all_available : List (Text × FeatureStepState) → Bool
all_available [] = true
all_available ((key, s) ∷ steps) = (s.available || is_true s.optional) && all_available steps

abbrev bool_eq : Bool → Bool → Bool
bool_eq true b = b
bool_eq false b = not b

module _ (equal : FeatureStepState → FeatureStepState → Bool) where
  announce : Bool → FeatureStepState → FeatureStepState → Verifier → Verifier
  announce before old new_state v =
      if not (bool_eq before v.available) || not (equal old new_state)
      then record v { heard = v.available }
      else v

  update_found : Option FeatureStepState → Text → FeatureStepState → Verifier → Option Verifier
  unfolding announce
  update_found none id s v = none
  update_found (some old) id s v =
      let steps = set_step id s v.steps in
      some
        (announce v.available old s (record v { steps = steps; available = all_available steps }))

  -- `updateStep`; `none` is the error of `assertStep`.
  unfoldable pub update_step : Text → FeatureStepState → Verifier → Option Verifier
  unfolding update_found
  update_step id s v = update_found (find_step id v.steps) id s v

  pub data Change : Type 0 where
    reject_step :
        (id title : Text) (message : Option Text) (is_disabled_by_ff optional : Option Bool)
        → Change
    accept_step : (id : Text) (title message warning : Option Text) → Change

  unfoldable pub apply_change : Change → Verifier → Option Verifier
  unfolding update_step
  apply_change (reject_step id title message disabled optional) v =
      update_step id
        (record {
          available = false;
          title = some title;
          message = message;
          warning = none;
          optional = optional;
          is_disabled_by_ff = some (is_true disabled);
        })
        v
  apply_change (accept_step id title message warning) v =
      update_step id
        (record {
          available = true;
          title = title;
          message = message;
          warning = warning;
          optional = none;
          is_disabled_by_ff = none;
        })
        v

  abbrev pub kept : Option Verifier → Verifier → Verifier
  kept none v = v
  kept (some w) v = w

  -- A change that throws leaves the verifier as it is.
  unfoldable pub run : List Change → Verifier → Verifier
  unfolding apply_change
  run [] v = v
  run (c ∷ cs) v = run cs (kept (apply_change c v) v)
