-- ===== src/Auth/DatabricksCliCheck.antt =====
-- configuration/auth/DatabricksCliCheck.ts. The workspace and the Databricks CLI are the record `Env` of functions
-- of a state `W`.
pub mod Laws
mod Tests
use databricks_vscode.Prelude.{
  ℕ, Bool, true, false, Option, none, some, String, List, [], ◌∷◌, ◌++◌, Text, codes, ◌==◌,
  if◌then◌else◌,
}
use databricks_vscode.Auth.Orchestrate.{
  StepResult, success, next, error, Settled, resolved, rejected, Outcome, done, failed, loop_error,
  orchestrate,
}

-- The fields of the provider that `login` reads. An empty profile or workspace id counts as none.
pub record Provider : Type 0 where
  pub host : Text
  pub profile : Option Text
  pub workspace_id : Option Text

pub record Env (W : Type 0) : Type 0 where
  pub cancelled : W → Bool
  -- The client is made, and whether its `currentUser.me()` returns. The promise is rejected if the
  -- client cannot be made.
  pub me : W → Settled Bool × W
  -- The CLI with its arguments: the error's `stderr || message`, if it failed.
  pub exec_file : List Text → W → Option Text × W

pub data StepName : Type 0 where
  try_login login : StepName

abbrev slash : ℕ
slash = 47

-- `text.replace(/\/+$/, "")`
unfoldable pub strip_slashes : Text → Text
strip_slashes [] = []
strip_slashes (c ∷ s) = elim (strip_slashes s) [
  | [] ↦ if c == slash then [] else c ∷ []
  | d ∷ r ↦ c ∷ d ∷ r
]

-- `host += ?w=…`
with_workspace : Text → Option Text → Text
with_workspace host none = host
with_workspace host (some []) = host
with_workspace host (some (c ∷ id)) = host ++ (codes "?w=" ++ (c ∷ id))

unfoldable pub login_host : Provider → Text
unfolding with_workspace
login_host p = with_workspace (strip_slashes p.host) p.workspace_id

profile_arguments : Option Text → List Text
profile_arguments none = []
profile_arguments (some []) = []
profile_arguments (some (c ∷ name)) = codes "--profile" ∷ (c ∷ name) ∷ []

unfoldable pub login_arguments : Provider → List Text
unfolding profile_arguments
login_arguments p =
    codes "auth"
    ∷ codes "login"
    ∷ codes "--host"
    ∷ login_host p
    ∷ (profile_arguments p.profile ++ (codes "--timeout" ∷ codes "300s" ∷ []))

profile_suffix : Option Text → Text
profile_suffix none = []
profile_suffix (some []) = []
profile_suffix (some (c ∷ name)) = codes " --profile " ++ (c ∷ name)

unfoldable pub manual_command : Provider → Text
unfolding profile_suffix
manual_command p =
    codes "databricks auth login --host '"
    ++ (login_host p ++ (codes "'" ++ profile_suffix p.profile))

unfoldable pub login_message : Provider → Text → Text
login_message p message =
    codes "Login failed with Databricks CLI: "
    ++ (message
        ++ (codes ". Try running `"
            ++ (manual_command p ++ codes "` in a terminal to complete the login, then reload.")))

-- The error of a rejected or failed step carries a text that is shown: the model keeps it in the
-- state.
pub record State (W : Type 0) : Type 0 where
  pub shown : Option Text
  pub world : W

module _ {W : Type 0} (env : Env W) (p : Provider) where
  -- `tryLogin` catches what `me` throws, and not what the making of the client does.
  unfoldable pub after_me : Settled Bool → State W → Settled (StepResult StepName Bool) × State W
  after_me (resolved ok) s = (resolved (if ok then success true else next login), s)
  after_me (rejected m) s = (rejected m, record s { shown = some (codes m) })

  unfoldable pub cli_steps : StepName → State W → Settled (StepResult StepName Bool) × State W
  unfolding after_me
  cli_steps try_login s = let (reply, w) = env.me s.world in after_me reply (record s { world = w })
  cli_steps login s =
      let (failure, w) = env.exec_file (login_arguments p) s.world in
      elim failure [
        | none ↦ (resolved (next try_login), record s { world = w })
        | some m ↦ (
          resolved (error "login failed"),
          record { shown = some (login_message p m); world = w },
        )
      ]

  -- The result of `check`, with the message that it shows if it fails.
  abbrev verdict : Outcome Bool × State W → Bool × Option Text × W
  verdict (done r, s) = (r, none, s.world)
  verdict (failed e, s) = (false, s.shown, s.world)
  verdict (loop_error, s) = (false, some (codes "Can't login using Databricks CLI"), s.world)

  unfoldable pub check : W → Bool × Option Text × W
  unfolding cli_steps orchestrate
  check w = verdict (
      orchestrate (λ s. env.cancelled s.world) cli_steps 6 try_login
        (record { shown = none; world = w }))
