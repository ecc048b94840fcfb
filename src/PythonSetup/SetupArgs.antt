-- ===== src/PythonSetup/SetupArgs.antt =====
-- python-setup/utils/setupLocalArgs.ts. An option that is absent counts as `false`.
pub mod Laws
use databricks_vscode.Prelude.{
  Bool, true, false, Option, none, some, List, [], ◌∷◌, ◌++◌, Text, codes,
}

pub data Compute : Type 0 where
  cluster serverless : Text → Compute

pub record SetupLocalInvocation : Type 0 where
  pub dry_run : Bool
  pub compute : Compute
  pub skip_constraints : Bool
  pub skip_dbconnect : Bool
  pub constraint_source_url : Option Text

abbrev pub compute_args : Compute → List Text
compute_args (cluster id) = codes "--cluster-id" ∷ id ∷ []
compute_args (serverless version) = codes "--serverless-version" ∷ version ∷ []

abbrev pub flag : Bool → Text → List Text
flag true name = name ∷ []
flag false name = []

-- An empty string is no override either.
abbrev pub source_args : Option Text → List Text
source_args none = []
source_args (some []) = []
source_args (some (c ∷ s)) = codes "--constraint-source-url" ∷ (c ∷ s) ∷ []

unfoldable pub build_setup_local_args : SetupLocalInvocation → List Text
build_setup_local_args inv =
    codes "environments"
    ∷ codes "setup-local"
    ∷ (compute_args inv.compute
        ++ (flag inv.skip_constraints (codes "--no-constraints")
            ++ (flag inv.skip_dbconnect (codes "--no-dbconnect")
                ++ (flag inv.dry_run (codes "--dry-run")
                    ++ (source_args inv.constraint_source_url
                        ++ (codes "--output" ∷ codes "json" ∷ []))))))
