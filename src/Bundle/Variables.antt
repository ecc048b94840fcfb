-- ===== src/Bundle/Variables.antt =====
-- bundle/models/BundleVariableModel.ts: the variables of a bundle with their overrides. A record of
-- overrides is the list of its entries; `parse` and `stringify` are those of JSON for it, and `L` are
-- the lookups. Of a variable only the fields are kept that the code looks at.
pub mod Overrides
use databricks_vscode.Prelude.{
  ℕ, Bool, true, false, not, ◌&&◌, Option, none, some, List, [], ◌∷◌, ◌++◌, Text, codes, same, map,
  is_some, if◌then◌else◌,
}

pub record Definition (L : Type 0) : Type 0 where
  pub default : Option Text
  pub lookup : Option L

-- The definition in the bundle: a text stands for its default.
pub data Written (L : Type 0) : Type 0 where
  short : Text → Written L
  full : Definition L → Written L

-- The variable in the target: missing, a text, or an object that can have a lookup.
pub data InTarget (L : Type 0) : Type 0 where
  missing : InTarget L
  text : Text → InTarget L
  object : Option L → InTarget L

pub record BundleVariable (L : Type 0) : Type 0 where
  pub default : Option Text
  pub lookup : Option L
  pub value_in_target : Option Text
  pub vscode_override_value : Option Text

abbrev pub Overrides : Type 0
Overrides = List (Text × Text)

-- The `map` and the `filter` of `getVariableOverrides`.
abbrev pub without_empty : Overrides → Overrides
without_empty [] = []
without_empty ((key, []) ∷ entries) = without_empty entries
without_empty ((key, c ∷ s) ∷ entries) = (key, c ∷ s) ∷ without_empty entries

abbrev pub entries_of : Option Overrides → Overrides
entries_of none = []
entries_of (some entries) = without_empty entries

-- `getVariableOverrides`, with the text of the file; `none` where it cannot be read.
unfoldable pub get_variable_overrides :
    (Text → Option Overrides) → (contents : Option Text) → Overrides
get_variable_overrides parse none = []
get_variable_overrides parse (some s) = entries_of (parse s)

-- `getFileContent`
unfoldable pub get_file_content :
    (Text → Option Overrides) → (Overrides → Text) → (contents : Option Text) → Text
unfolding get_variable_overrides
get_file_content parse stringify contents = stringify (get_variable_overrides parse contents)

-- `getEnvVariables`
unfoldable pub get_env_variables : (Text → Option Overrides) → (contents : Option Text) → Overrides
unfolding get_variable_overrides
get_env_variables parse contents =
    map (λ (entry : Text × Text). (codes "BUNDLE_VAR_" ++ entry.0, entry.1))
      (get_variable_overrides parse contents)

abbrev pub override_of : Text → Overrides → Option Text
override_of key [] = none
override_of key ((k, v) ∷ entries) = if same k key then some v else override_of key entries

abbrev pub first_of : Option Text → Option Text → Option Text
first_of none later = later
first_of (some s) later = some s

module _ {L : Type 0} where
  abbrev pub definition_of : Written L → Definition L
  definition_of (short s) = record { default = some s; lookup = none }
  definition_of (full d) = d

  -- The heuristic test.
  abbrev pub is_required : InTarget L → Definition L → Bool
  is_required missing d = not (is_some d.lookup) && not (is_some d.default)
  is_required _ d = false

  abbrev pub lookup_of : InTarget L → Definition L → Option L
  lookup_of (object (some l)) d = some l
  lookup_of _ d = d.lookup

  -- `post` is the value that the validated configuration has.
  abbrev pub value_in_target : InTarget L → Definition L → (post : Option Text) → Option Text
  value_in_target (text s) d post = some s
  value_in_target t d post = if is_required t d then none else first_of post d.default

  -- One turn of the loop.
  abbrev pub read_variable :
      Written L → InTarget L → (post override : Option Text) → BundleVariable L
  read_variable w t post override =
      let d = definition_of w in
      record {
        default = d.default;
        lookup = lookup_of t d;
        value_in_target = value_in_target t d post;
        vscode_override_value = override;
      }

  -- `readState`, where there is a configuration.
  unfoldable pub read_state :
      List (Text × Written L)
      → (in_target : Text → InTarget L) → (post : Text → Option Text) → Overrides
      → List (Text × BundleVariable L)
  read_state [] in_target post overrides = []
  read_state ((key, w) ∷ definitions) in_target post overrides =
      (key, read_variable w (in_target key) (post key) (override_of key overrides))
      ∷ read_state definitions in_target post overrides
