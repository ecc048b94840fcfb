-- ===== src/Environment/Tests.antt =====
-- An `.env` file, and lists of hosts.
use databricks_vscode.Prelude.{◌≡◌, refl, true, false, none, some, List, [], ◌∷◌, Text, codes}
use databricks_vscode.Environment.Proxy.{
  merge_no_proxy, split_commas, trim, unique, build_ca_bundle,
}
use databricks_vscode.Environment.Proxy.Bypass.{trusted, build_ca_bundle-trusted}
use databricks_vscode.Environment.Vars.{
  entry_of, collect, get_user_env_vars, env_line_end, Connection, Surroundings,
  get_common_databricks_env_vars, get_auth_env_vars, get_proxy_env_vars, remove_undefined_keys,
}
use databricks_vscode.LmChat.Events.{split}
use databricks_vscode.Environment.Vars.EnvFile.{write_env, get_user_env_vars-written}

abbrev entries : List (Text × Text)
entries = (codes "A", codes "1=2") ∷ (codes "B", codes " x") ∷ (codes "A", codes "3") ∷ []

get_user_env_vars-written_example :
    get_user_env_vars (write_env entries) ≡ (codes "A", codes "1=2") ∷ (codes "B", codes " x") ∷ []
get_user_env_vars-written_example = get_user_env_vars-written entries (
  record {
    key_nonempty = refl;
    key_plain = refl;
    key_line = refl;
    value_nonempty = refl;
    value_line = refl;
  },
  (
    record {
      key_nonempty = refl;
      key_plain = refl;
      key_line = refl;
      value_nonempty = refl;
      value_line = refl;
    },
    (
      record {
        key_nonempty = refl;
        key_plain = refl;
        key_line = refl;
        value_nonempty = refl;
        value_line = refl;
      },
      tt,
    ),
  ),
)

-- Lines that are no variables are passed over.
odd_lines :
    get_user_env_vars (codes "# a comment\r\n=1\r\nK=\r\nK=v\r\n") ≡ (codes "K", codes "v") ∷ []
unfolding get_user_env_vars split env_line_end collect entry_of
odd_lines = refl

abbrev hosts : List Text
hosts = codes "a.com " ∷ codes "" ∷ []

extra_trusted :
    trusted
      (codes "c")
      (build_ca_bundle (codes "r" ∷ []) none (some (codes "k")) (some (codes "c")))
    ≡ true
extra_trusted =
    build_ca_bundle-trusted (codes "r" ∷ []) none (some (codes "k")) (some (codes "c")) (codes "c")
      refl

no_certificates : build_ca_bundle (codes "r" ∷ []) (some []) none (some (codes "c")) ≡ none
unfolding build_ca_bundle
no_certificates = refl

abbrev connection : Connection
connection = record {
  host = some (codes "https://h/");
  host_name = some (codes "h");
  metadata_service_url = some (codes "http://m");
  workspace_id = none;
  serverless = true;
  cluster_id = some (codes "c");
  auth_type_pat = false;
}

abbrev bare : Surroundings
bare = record {
  http_proxy_setting = none;
  http_no_proxy = [];
  env = λ key. none;
  extension_version = codes "2";
}

-- On serverless compute the cluster is left out.
serverless_vars :
    remove_undefined_keys (get_common_databricks_env_vars connection bare (some (codes "dev")))
    ≡ (codes "DATABRICKS_BUNDLE_TARGET", codes "dev")
      ∷ (codes "DATABRICKS_HOST", codes "https://h/")
      ∷ (codes "DATABRICKS_AUTH_TYPE", codes "metadata-service")
      ∷ (codes "DATABRICKS_METADATA_SERVICE_URL", codes "http://m")
      ∷ (codes "DATABRICKS_SERVERLESS_COMPUTE_ID", codes "auto")
      ∷ []
unfolding remove_undefined_keys get_common_databricks_env_vars get_auth_env_vars get_proxy_env_vars
    merge_no_proxy split_commas trim unique
serverless_vars = refl
