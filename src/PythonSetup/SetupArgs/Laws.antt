-- ===== src/PythonSetup/SetupArgs/Laws.antt =====
-- The arguments say everything about the invocation.
use databricks_vscode.Prelude.{
  ◌≡◌, refl, ◌∙◌, ◌&&◌, Bool, true, false, Option, none, some, List, [], ◌∷◌, ◌++◌, Text, codes,
  same, if◌then◌else◌,
}
use databricks_vscode.PythonSetup.SetupArgs.{
  Compute, cluster, serverless, SetupLocalInvocation, compute_args, flag, source_args,
  build_setup_local_args,
}

-- What a reader of an argument list expects next.
pub data Pending : Type 0 where
  option cluster_id serverless_version source_url output : Pending

abbrev pub read_option : Text → SetupLocalInvocation → Option (Pending × SetupLocalInvocation)
read_option name inv =
    if same name (codes "--no-constraints")
    then some (option, record inv { skip_constraints = true })
    else if same name (codes "--no-dbconnect")
    then some (option, record inv { skip_dbconnect = true })
    else if same name (codes "--dry-run")
    then some (option, record inv { dry_run = true })
    else if same name (codes "--cluster-id")
    then some (cluster_id, inv)
    else if same name (codes "--serverless-version")
    then some (serverless_version, inv)
    else if same name (codes "--constraint-source-url")
    then some (source_url, inv)
    else if same name (codes "--output")
    then some (output, inv)
    else none

-- Options in any order, each with its value behind it if it takes one; the output has to be JSON.
unfoldable pub read_options :
    Pending → List Text → SetupLocalInvocation → Option SetupLocalInvocation
read_options option [] inv = some inv
read_options option (name ∷ rest) inv = elim (read_option name inv) [
  | none ↦ none
  | some (next, read) ↦ read_options next rest read
]
read_options cluster_id (id ∷ rest) inv =
    read_options option rest (record inv { compute = cluster id })
read_options serverless_version (v ∷ rest) inv =
    read_options option rest (record inv { compute = serverless v })
read_options source_url (url ∷ rest) inv =
    read_options option rest (record inv { constraint_source_url = some url })
read_options output (format ∷ rest) inv =
    let more = read_options option rest inv in if same format (codes "json") then more else none
read_options _ [] inv = none

abbrev pub plain : Compute → SetupLocalInvocation
plain c = record {
  dry_run = false;
  compute = c;
  skip_constraints = false;
  skip_dbconnect = false;
  constraint_source_url = none;
}

-- The two words of the command, and its options.
abbrev pub read_command : List Text → Option SetupLocalInvocation
unfolding read_options
read_command (a ∷ b ∷ rest) =
    if same a (codes "environments") && same b (codes "setup-local")
    then read_options option rest (plain (cluster []))
    else none
read_command _ = none

-- An empty override is none.
abbrev pub override : Option Text → Option Text
override (some []) = none
override url = url

compute_read :
    (c : Compute) (rest : List Text) (inv : SetupLocalInvocation)
    → read_options option (compute_args c ++ rest) inv
      ≡ read_options option rest (record inv { compute = c })
unfolding read_options
compute_read (cluster id) rest inv = refl
compute_read (serverless v) rest inv = refl

constraints_read :
    (b : Bool) (rest : List Text) (c : Compute)
    → read_options option (flag b (codes "--no-constraints") ++ rest) (plain c)
      ≡ read_options option rest (record (plain c) { skip_constraints = b })
unfolding read_options
constraints_read true rest c = refl
constraints_read false rest c = refl

dbconnect_read :
    (b : Bool) (rest : List Text) (c : Compute) (k : Bool)
    → read_options option
        (flag b (codes "--no-dbconnect") ++ rest)
        (record (plain c) { skip_constraints = k })
      ≡ read_options option rest (record (plain c) { skip_constraints = k; skip_dbconnect = b })
unfolding read_options
dbconnect_read true rest c k = refl
dbconnect_read false rest c k = refl

ends_read :
    (b : Bool) (url : Option Text) (c : Compute) (k d : Bool)
    → read_options option
        (flag b (codes "--dry-run") ++ (source_args url ++ (codes "--output" ∷ codes "json" ∷ [])))
        (record (plain c) { skip_constraints = k; skip_dbconnect = d })
      ≡ some (record {
        dry_run = b;
        compute = c;
        skip_constraints = k;
        skip_dbconnect = d;
        constraint_source_url = override url;
      })
unfolding read_options
ends_read true none c k d = refl
ends_read true (some []) c k d = refl
ends_read true (some (x ∷ s)) c k d = refl
ends_read false none c k d = refl
ends_read false (some []) c k d = refl
ends_read false (some (x ∷ s)) c k d = refl

-- A reader of the argument list that takes the options in any order gets back the invocation, an
-- empty override of the constraint source read as none.
pub read-build_setup_local_args :
    (inv : SetupLocalInvocation)
    → read_command (build_setup_local_args inv)
      ≡ some (record inv { constraint_source_url = override inv.constraint_source_url })
unfolding read_command build_setup_local_args
read-build_setup_local_args inv =
    compute_read inv.compute _ (plain (cluster []))
    ∙ (constraints_read inv.skip_constraints _ inv.compute
        ∙ (dbconnect_read inv.skip_dbconnect _ inv.compute inv.skip_constraints
            ∙ ends_read inv.dry_run inv.constraint_source_url inv.compute inv.skip_constraints
                inv.skip_dbconnect))
