-- ===== src/Execute/Init.antt =====
-- `runInit` of init.ts: the options, the questions, and the document that is written as
-- databricks.yml. A document is a mapping whose `targets`, if there, are one too; `V` is the type
-- of its other values. What is printed is left out.
pub mod Targets
use databricks_vscode.Prelude.{
  Bool, true, false, Option, none, some, List, [], ◌∷◌, ◌++◌, Text, codes, same, if◌then◌else◌,
}
use databricks_vscode.Execute.Paths.{normalize_host}

pub record InitOptions : Type 0 where
  pub host : Option Text
  pub cluster : Option Text
  pub target : Option Text
  pub name : Option Text

abbrev pub no_init_options : InitOptions
no_init_options = record { host = none; cluster = none; target = none; name = none }

-- `init_help` prints the help and exits with 0; `init_failed` throws.
pub data InitParse : Type 0 where
  init_parsed : InitOptions → InitParse
  init_help : InitParse
  init_failed : Text → InitParse

abbrev pub set_init_option : (flag value : Text) → InitOptions → Option InitOptions
set_init_option flag v o =
    if same flag (codes "--host")
    then some (record o { host = some v })
    else if same flag (codes "--cluster")
    then some (record o { cluster = some v })
    else if same flag (codes "--target")
    then some (record o { target = some v })
    else if same flag (codes "--name")
    then some (record o { name = some v })
    else none

abbrev pub is_init_option : Text → Bool
is_init_option flag = elim (set_init_option flag [] no_init_options) [
  | none ↦ false
  | some o ↦ true
]

abbrev pub is_help : Text → Bool
is_help a = if same a (codes "--help") then true else same a (codes "-h")

unfoldable pub parse_init_args : List Text → InitOptions → InitParse
parse_init_args [] o = init_parsed o
parse_init_args (a ∷ []) o =
    if is_help a
    then init_help
    else if is_init_option a
    then init_failed (codes "Missing value for " ++ a)
    else init_failed (codes "Unknown init argument: " ++ a)
parse_init_args (a ∷ v ∷ argv) o =
    let next : InitParse = elim (set_init_option a v o) [
      | none ↦ init_failed (codes "Unknown init argument: " ++ a)
      | some p ↦ parse_init_args argv p
    ] in
    if is_help a then init_help else next

-- The target that is made, of mode `development` and the default one.
pub record Target : Type 0 where
  pub cluster_id : Text
  pub host : Text

pub data Entry (V : Type 0) : Type 0 where
  kept : V → Entry V
  made : Target → Entry V

pub record Document (V : Type 0) : Type 0 where
  pub others : List (Text × V)
  pub targets : Option (List (Text × Entry V))

-- What comes of the questions. `bundle_name` is the name of a new bundle.
pub data InitResult (V : Type 0) : Type 0 where
  updated : Document V → InitResult V
  new_document : (bundle_name target : Text) → Target → InitResult V
  refused : Text → InitResult V

-- `option || answer`
abbrev pub or_text : Option Text → Text → Text
or_text none other = other
or_text (some []) other = other
or_text (some (c ∷ s)) other = c ∷ s

module _ {V : Type 0} where
  unfoldable pub set_entry : Text → Entry V → List (Text × Entry V) → List (Text × Entry V)
  set_entry key e [] = (key, e) ∷ []
  set_entry key e ((k, f) ∷ entries) =
      let rest = (k, f) ∷ set_entry key e entries in if same k key then (k, e) ∷ entries else rest

  abbrev pub entries_of : Option (List (Text × Entry V)) → List (Text × Entry V)
  entries_of none = []
  entries_of (some entries) = entries

  unfoldable pub add_target : Text → Target → Document V → Document V
  unfolding set_entry
  add_target name t d = record d { targets = some (set_entry name (made t) (entries_of d.targets)) }

  -- `existing` is the document of a file that could be read and parsed to a mapping.
  unfoldable pub write_document :
      (existing : Option (Document V)) (bundle_name target : Text) → Target → InitResult V
  unfolding add_target
  write_document none bundle_name target t = new_document bundle_name target t
  write_document (some d) bundle_name target t = updated (add_target target t d)

  -- `parse` gives no document for a text that is no mapping, or that `YAML.parse` refuses.
  abbrev pub existing_document :
      (parse : Text → Option (Document V)) → (file : Option Text) → Option (Document V)
  existing_document parse none = none
  existing_document parse (some raw) = parse raw

  unfoldable pub with_cluster :
      (existing : Option (Document V)) (dir : Text)
      → InitOptions
      → (host cluster : Text) → InitResult V
  unfolding write_document normalize_host
  with_cluster existing dir o host [] =
      refused (codes "Cluster ID is required. Provide --cluster or enter it when prompted.")
  with_cluster existing dir o host (c ∷ cluster) =
      write_document existing (or_text o.name dir) (or_text o.target (codes "dbexec"))
        (record { cluster_id = c ∷ cluster; host = normalize_host host })

  -- The question for the cluster comes behind that for the host.
  unfoldable pub with_host :
      (existing : Option (Document V)) (dir : Text)
      → InitOptions
      → (host answer_cluster : Text) → InitResult V
  unfolding with_cluster
  with_host existing dir o [] answer_cluster =
      refused (codes "Host is required. Provide --host or enter it when prompted.")
  with_host existing dir o (c ∷ host) answer_cluster =
      with_cluster existing dir o (c ∷ host) (or_text o.cluster answer_cluster)

  -- `answer_host` and `answer_cluster` are the trimmed answers, `dir` the name of the directory.
  unfoldable pub run_init :
      (parse : Text → Option (Document V)) (file : Option Text)
      (dir answer_host answer_cluster : Text)
      → InitOptions
      → InitResult V
  unfolding with_host
  run_init parse file dir answer_host answer_cluster o =
      with_host (existing_document parse file) dir o (or_text o.host answer_host) answer_cluster
