-- ===== src/Environment/Vars.antt =====
-- utils/envVarGenerators.ts: the environment variables of child processes. An object is the list of its
-- entries; `none` is `undefined`. The connection, the settings and `process.env` are arguments.
pub mod EnvFile
use databricks_vscode.Prelude.{
  ℕ, Bool, true, false, not, ◌&&◌, ◌||◌, Option, none, some, List, [], ◌∷◌, ◌++◌, Text, codes, same,
  starts_with, ◌==◌, if◌then◌else◌,
}
use databricks_vscode.LmChat.Events.{split, lines_of}
use databricks_vscode.Environment.Proxy.{or_text, merge_no_proxy, is_nonempty}

-- `/\r?\n/` at the start of a text: its length, or 0.
unfoldable pub env_line_end : Text → ℕ
env_line_end s =
    if starts_with s (13 ∷ 10 ∷ []) then 2 else if starts_with s (10 ∷ []) then 1 else 0

abbrev pub put_key : ℕ → Text × Text → Text × Text
put_key c (key, value) = (c ∷ key, value)

-- The first part of `split("=")`, and the other ones joined again.
unfoldable pub entry_of : Text → Text × Text
entry_of [] = ([], [])
entry_of (c ∷ s) = let later = put_key c (entry_of s) in if c == b'=' then ([], s) else later

abbrev pub has_key : Text → List (Text × Text) → Bool
has_key key [] = false
has_key key ((k, v) ∷ entries) = same k key || has_key key entries

-- The filter and the `reduce`, from the entries before.
unfoldable pub collect : List (Text × Text) → List Text → List (Text × Text)
unfolding entry_of
collect vars [] = vars
collect vars (line ∷ lines) =
    let (key, value) = entry_of line in
    let with_it = collect (vars ++ (key, value) ∷ []) lines in
    let without = collect vars lines in
    if is_nonempty key && is_nonempty value
    then (if has_key key vars then without else with_it)
    else without

-- `getUserEnvVars`, of the text of the file.
unfoldable pub get_user_env_vars : Text → List (Text × Text)
unfolding split env_line_end collect
get_user_env_vars text = collect [] (lines_of (split env_line_end 0 text))

abbrev pub Vars : Type 0
Vars = List (Text × Option Text)

-- What the functions read of the connection; `host` is its whole address.
pub record Connection : Type 0 where
  pub host : Option Text
  pub host_name : Option Text
  pub metadata_service_url : Option Text
  pub workspace_id : Option Text
  pub serverless : Bool
  pub cluster_id : Option Text
  pub auth_type_pat : Bool

abbrev pub is_truthy : Option Text → Bool
is_truthy (some (c ∷ s)) = true
is_truthy _ = false

-- `getAuthEnvVars`
unfoldable pub get_auth_env_vars : Connection → Vars
get_auth_env_vars c =
    if is_truthy c.host && is_truthy c.metadata_service_url
    then (codes "DATABRICKS_HOST", c.host)
      ∷ (codes "DATABRICKS_AUTH_TYPE", some (codes "metadata-service"))
      ∷ (codes "DATABRICKS_METADATA_SERVICE_URL", c.metadata_service_url)
      ∷ (if is_truthy c.workspace_id
          then (codes "DATABRICKS_WORKSPACE_ID", c.workspace_id) ∷ []
          else [])
    else []

-- `process.env` and the settings of the proxy.
pub record Surroundings : Type 0 where
  pub http_proxy_setting : Option Text
  pub http_no_proxy : List Text
  pub env : Text → Option Text
  pub extension_version : Text

abbrev pub join_commas : List Text → Text
join_commas [] = []
join_commas (s ∷ []) = s
join_commas (s ∷ t ∷ ss) = s ++ b',' ∷ join_commas (t ∷ ss)

-- `join(",") || undefined`
abbrev pub or_none : Text → Option Text
or_none [] = none
or_none (c ∷ s) = some (c ∷ s)

-- `getProxyEnvVars`
unfoldable pub get_proxy_env_vars : Surroundings → Vars
unfolding merge_no_proxy
get_proxy_env_vars w =
    (
      codes "HTTP_PROXY",
      or_text w.http_proxy_setting
          (or_text (w.env (codes "HTTP_PROXY")) (w.env (codes "http_proxy"))),
    )
    ∷ (
      codes "HTTPS_PROXY",
      or_text w.http_proxy_setting
          (or_text (w.env (codes "HTTPS_PROXY")) (w.env (codes "https_proxy"))),
    )
    ∷ (
      codes "NO_PROXY",
      or_none (
          join_commas
            (merge_no_proxy w.http_no_proxy (w.env (codes "NO_PROXY")) (w.env (codes "no_proxy")))),
    )
    ∷ []

-- `getCommonDatabricksEnvVars`
unfoldable pub get_common_databricks_env_vars : Connection → Surroundings → Option Text → Vars
unfolding get_auth_env_vars get_proxy_env_vars
get_common_databricks_env_vars c w bundle_target =
    (codes "DATABRICKS_BUNDLE_TARGET", bundle_target)
    ∷ (get_auth_env_vars c
        ++ (get_proxy_env_vars w
            ++ (codes "DATABRICKS_CLUSTER_ID", if c.serverless then none else c.cluster_id)
              ∷ (
                codes "DATABRICKS_SERVERLESS_COMPUTE_ID",
                if c.serverless then some (codes "auto") else none,
              )
              ∷ []))

-- `getSparkRemoteEnvVar`, with the token that is read for it.
abbrev pub spark_remote : Text → Text → Text → Vars
spark_remote host pat cluster_id =
    (
      codes "SPARK_REMOTE",
      some (
          codes "sc://"
          ++ host
          ++ codes ":443/;token="
          ++ pat
          ++ codes ";use_ssl=true;x-databricks-cluster-id="
          ++ cluster_id),
    )
    ∷ []

unfoldable pub get_spark_remote_env_var : Connection → (pat : Option Text) → Vars
get_spark_remote_env_var c pat = elim c.host_name [
  | none ↦ []
  | some host ↦ elim c.cluster_id [
    | none ↦ []
    | some cluster_id ↦ elim pat [
      | none ↦ []
      | some token ↦
          if is_truthy (some host) && c.auth_type_pat && is_truthy (some token)
          then spark_remote host token cluster_id
          else []
    ]
  ]
]

abbrev pub first_set : Option Text → Option Text → Option Text
first_set none later = later
first_set (some s) later = some s

-- `getEnvVarsForCli`
unfoldable pub get_env_vars_for_cli : Surroundings → Option Text → Vars
get_env_vars_for_cli w config_file =
    (codes "HOME", w.env (codes "HOME"))
    ∷ (codes "PATH", w.env (codes "PATH"))
    ∷ (
      codes "DATABRICKS_CONFIG_FILE",
      first_set config_file (w.env (codes "DATABRICKS_CONFIG_FILE")),
    )
    ∷ (codes "DATABRICKS_OUTPUT_FORMAT", some (codes "json"))
    ∷ (codes "DATABRICKS_CLI_UPSTREAM", some (codes "databricks-vscode"))
    ∷ (codes "DATABRICKS_CLI_UPSTREAM_VERSION", some w.extension_version)
    ∷ []

-- `removeUndefinedKeys`
unfoldable pub remove_undefined_keys : Vars → List (Text × Text)
remove_undefined_keys [] = []
remove_undefined_keys ((key, none) ∷ vars) = remove_undefined_keys vars
remove_undefined_keys ((key, some v) ∷ vars) = (key, v) ∷ remove_undefined_keys vars
