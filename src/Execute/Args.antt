-- ===== src/Execute/Args.antt =====
-- `parseArgs` of cli.ts. The objects of `--env` and `--widget` are lists of their members.
pub mod Printed
use databricks_vscode.Prelude.{
  Bool, true, false, not, ◌&&◌, ◌||◌, Option, none, some, List, [], ◌∷◌, ◌++◌, Text, codes, same,
  starts_with, is_some, ◌==◌, if◌then◌else◌,
}

-- The result, with the fields of `options` in it; an absent flag is `false`.
pub record Parsed : Type 0 where
  pub file_path : Option Text
  pub target : Option Text
  pub host : Option Text
  pub token : Option Text
  pub cluster : Option Text
  pub serverless : Bool
  pub start_cluster : Bool
  pub context_id : Option Text
  pub keep_context : Bool
  pub env : List (Text × Text)
  pub widget_params : List (Text × Text)
  pub script_args : List Text

abbrev pub no_options : Parsed
no_options = record {
  file_path = none;
  target = none;
  host = none;
  token = none;
  cluster = none;
  serverless = false;
  start_cluster = true;
  context_id = none;
  keep_context = false;
  env = [];
  widget_params = [];
  script_args = [];
}

-- `help` prints the help and exits with 0; `failed` throws.
pub data Parse : Type 0 where
  parsed : Parsed → Parse
  help : Parse
  failed : Text → Parse

-- The options with a value.
pub data Valued : Type 0 where
  target host token cluster context_id env widget : Valued

-- What the loop makes of an argument that is no value.
pub data Reading : Type 0 where
  updates : Parsed → Reading
  wants : Valued → Reading
  shows_help : Reading
  fails : Text → Reading

-- `raw.indexOf("=")` and the two slices
unfoldable pub split_at_equals : Text → Option (Text × Text)
split_at_equals [] = none
split_at_equals (c ∷ s) =
    if c == b'='
    then some ([], s)
    else elim (split_at_equals s) [ none ↦ none | some (k, v) ↦ some (c ∷ k, v) ]

-- A key is not empty.
abbrev pub key_value_of : Option (Text × Text) → Option (Text × Text)
key_value_of (some (c ∷ k, v)) = some (c ∷ k, v)
key_value_of _ = none

unfoldable pub parse_key_value_option : Text → Option (Text × Text)
unfolding split_at_equals
parse_key_value_option raw = key_value_of (split_at_equals raw)

-- `object[key] = value`, for a key that is not special to an object of JavaScript: `__proto__` would
-- not be added, and a key that is a number would come before the others.
unfoldable pub assign : Text → Text → List (Text × Text) → List (Text × Text)
assign key value [] = (key, value) ∷ []
assign key value ((k, v) ∷ members) =
    let rest = (k, v) ∷ assign key value members in
    if same k key then (k, value) ∷ members else rest

abbrev pub invalid_pair : Text → Text
invalid_pair flag = codes "Invalid " ++ (flag ++ codes " value (expected KEY=VALUE)")

abbrev pub assign_env : Option (Text × Text) → Parsed → Reading
unfolding assign
assign_env none p = fails (invalid_pair (codes "--env"))
assign_env (some (k, v)) p = updates (record p { env = assign k v p.env })

abbrev pub assign_widget : Option (Text × Text) → Parsed → Reading
unfolding assign
assign_widget none p = fails (invalid_pair (codes "--widget"))
assign_widget (some (k, v)) p = updates (record p { widget_params = assign k v p.widget_params })

unfoldable pub store_value : Valued → Text → Parsed → Reading
unfolding parse_key_value_option assign_env assign_widget
store_value target v p = updates (record p { target = some v })
store_value host v p = updates (record p { host = some v })
store_value token v p = updates (record p { token = some v })
store_value cluster v p = updates (record p { cluster = some v })
store_value context_id v p = updates (record p { context_id = some v })
store_value env v p = assign_env (parse_key_value_option v) p
store_value widget v p = assign_widget (parse_key_value_option v) p

-- The `switch` on the argument
unfoldable pub read_option : Text → Parsed → Reading
read_option a p =
    if same a (codes "--target")
    then wants target
    else if same a (codes "--host")
    then wants host
    else if same a (codes "--token")
    then wants token
    else if same a (codes "--cluster")
    then wants cluster
    else if same a (codes "--serverless")
    then updates (record p { serverless = true })
    else if same a (codes "--start-cluster")
    then updates (record p { start_cluster = true })
    else if same a (codes "--no-start-cluster")
    then updates (record p { start_cluster = false })
    else if same a (codes "--context-id")
    then wants context_id
    else if same a (codes "--keep-context")
    then updates (record p { keep_context = true })
    else if same a (codes "--env")
    then wants env
    else if same a (codes "--widget")
    then wants widget
    else fails (codes "Unknown argument: " ++ a)

unfoldable pub read_argument : Text → Parsed → Reading
unfolding read_option
read_argument a p =
    if same a (codes "--help") || same a (codes "-h")
    then shows_help
    else if not (starts_with a (codes "-")) && not (is_some p.file_path)
    then updates (record p { file_path = some a })
    else read_option a p

-- Whether the next argument is the value of an option, with that option's spelling.
pub data Expected : Type 0 where
  argument : Expected
  value_for : Valued → Text → Expected

unfoldable pub parse_loop : Expected → List Text → Parsed → Parse
unfolding store_value read_argument
parse_loop argument [] p = parsed p
parse_loop (value_for option spelled) [] p = failed (codes "Missing value for " ++ spelled)
parse_loop argument (a ∷ rest) p = elim (read_argument a p) [
  | updates q ↦ parse_loop argument rest q
  | wants option ↦ parse_loop (value_for option a) rest p
  | shows_help ↦ help
  | fails m ↦ failed m
]
parse_loop (value_for option spelled) (v ∷ rest) p = elim (store_value option v p) [
  | updates q ↦ parse_loop argument rest q
  | wants other ↦ parse_loop argument rest p
  | shows_help ↦ help
  | fails m ↦ failed m
]

-- `argv.indexOf("--")` and the two slices
unfoldable pub split_delimiter : List Text → List Text × List Text
split_delimiter [] = ([], [])
split_delimiter (a ∷ rest) =
    let (cli_args, script_args) = split_delimiter rest in
    if same a (codes "--") then ([], rest) else (a ∷ cli_args, script_args)

unfoldable pub parse_args : List Text → Parse
unfolding parse_loop split_delimiter
parse_args argv =
    let (cli_args, script_args) = split_delimiter argv in
    parse_loop argument cli_args (record no_options { script_args = script_args })
