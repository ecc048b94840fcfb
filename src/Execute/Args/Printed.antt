-- ===== src/Execute/Args/Printed.antt =====
-- A command line that says what to run is read as that.
use databricks_vscode.Prelude.{
  ◌≡◌, refl, ◌∙◌, ap, Bool, true, false, not, Option, none, some, List, [], ◌∷◌, ◌++◌, Text, codes,
  same, starts_with, has, All, arith,
}
use databricks_vscode.Execute.Args.{
  Parsed, no_options, parsed, env, widget, updates, split_at_equals, parse_key_value_option, assign,
  store_value, read_argument, argument, parse_loop, split_delimiter, parse_args,
}

abbrev pub option_words : Text → Option Text → List Text
option_words name none = []
option_words name (some v) = name ∷ v ∷ []

abbrev pub flag_words : Text → Bool → List Text
flag_words name true = name ∷ []
flag_words name false = []

abbrev pub pair_words : Text → List (Text × Text) → List Text
pair_words name [] = []
pair_words name ((k, v) ∷ pairs) = name ∷ (k ++ b'=' ∷ v) ∷ pair_words name pairs

-- The words in front of `--`: the file, then the options.
abbrev pub words : Text → Parsed → List Text
words file p =
    file
    ∷ (option_words (codes "--target") p.target
        ++ (option_words (codes "--host") p.host
            ++ (option_words (codes "--token") p.token
                ++ (option_words (codes "--cluster") p.cluster
                    ++ (flag_words (codes "--serverless") p.serverless
                        ++ (flag_words (codes "--no-start-cluster") (not p.start_cluster)
                            ++ (option_words (codes "--context-id") p.context_id
                                ++ (flag_words (codes "--keep-context") p.keep_context
                                    ++ (pair_words (codes "--env") p.env
                                        ++ pair_words (codes "--widget") p.widget_params)))))))))

-- Successive assignments to an object.
abbrev pub assign_all : List (Text × Text) → List (Text × Text) → List (Text × Text)
unfolding assign
assign_all [] members = members
assign_all ((k, v) ∷ pairs) members = assign_all pairs (assign k v members)

-- A key is not empty and has no equals sign.
abbrev pub IsKey : Text → Type 0
IsKey k = (same k [] ≡ false) × (has b'=' k ≡ false)

target_read :
    (o : Option Text) (rest : List Text) (p : Parsed)
    → p.target ≡ none
    → parse_loop argument (option_words (codes "--target") o ++ rest) p
      ≡ parse_loop argument rest (record p { target = o })
unfolding parse_loop
target_read none rest p h = ap (parse_loop argument rest) (ground arith)
target_read (some v) rest p h = refl

host_read :
    (o : Option Text) (rest : List Text) (p : Parsed)
    → p.host ≡ none
    → parse_loop argument (option_words (codes "--host") o ++ rest) p
      ≡ parse_loop argument rest (record p { host = o })
unfolding parse_loop
host_read none rest p h = ap (parse_loop argument rest) (ground arith)
host_read (some v) rest p h = refl

token_read :
    (o : Option Text) (rest : List Text) (p : Parsed)
    → p.token ≡ none
    → parse_loop argument (option_words (codes "--token") o ++ rest) p
      ≡ parse_loop argument rest (record p { token = o })
unfolding parse_loop
token_read none rest p h = ap (parse_loop argument rest) (ground arith)
token_read (some v) rest p h = refl

cluster_read :
    (o : Option Text) (rest : List Text) (p : Parsed)
    → p.cluster ≡ none
    → parse_loop argument (option_words (codes "--cluster") o ++ rest) p
      ≡ parse_loop argument rest (record p { cluster = o })
unfolding parse_loop
cluster_read none rest p h = ap (parse_loop argument rest) (ground arith)
cluster_read (some v) rest p h = refl

context_id_read :
    (o : Option Text) (rest : List Text) (p : Parsed)
    → p.context_id ≡ none
    → parse_loop argument (option_words (codes "--context-id") o ++ rest) p
      ≡ parse_loop argument rest (record p { context_id = o })
unfolding parse_loop
context_id_read none rest p h = ap (parse_loop argument rest) (ground arith)
context_id_read (some v) rest p h = refl

serverless_read :
    (b : Bool) (rest : List Text) (p : Parsed)
    → p.serverless ≡ false
    → parse_loop argument (flag_words (codes "--serverless") (b) ++ rest) p
      ≡ parse_loop argument rest (record p { serverless = b })
unfolding parse_loop
serverless_read false rest p h = ap (parse_loop argument rest) (ground arith)
serverless_read true rest p h = refl

start_cluster_read :
    (b : Bool) (rest : List Text) (p : Parsed)
    → p.start_cluster ≡ true
    → parse_loop argument (flag_words (codes "--no-start-cluster") (not b) ++ rest) p
      ≡ parse_loop argument rest (record p { start_cluster = b })
unfolding parse_loop
start_cluster_read true rest p h = ap (parse_loop argument rest) (ground arith)
start_cluster_read false rest p h = refl

keep_context_read :
    (b : Bool) (rest : List Text) (p : Parsed)
    → p.keep_context ≡ false
    → parse_loop argument (flag_words (codes "--keep-context") (b) ++ rest) p
      ≡ parse_loop argument rest (record p { keep_context = b })
unfolding parse_loop
keep_context_read false rest p h = ap (parse_loop argument rest) (ground arith)
keep_context_read true rest p h = refl

split_at_equals-append :
    (k v : Text) → has b'=' k ≡ false → split_at_equals (k ++ b'=' ∷ v) ≡ some (k, v)
unfolding split_at_equals
split_at_equals-append [] v h = refl
split_at_equals-append (c ∷ k) v h = ground (arith, split_at_equals-append k v)

pair_read : (k v : Text) → IsKey k → parse_key_value_option (k ++ b'=' ∷ v) ≡ some (k, v)
unfolding parse_key_value_option
pair_read [] v h = absurd (ground arith)
pair_read (c ∷ k) v h = rw (split_at_equals-append (c ∷ k) v h.1) refl

store_env :
    (k v : Text) (p : Parsed)
    → IsKey k
    → store_value env (k ++ b'=' ∷ v) p ≡ updates (record p { env = assign k v p.env })
unfolding store_value
store_env k v p h = rw (pair_read k v h) refl

env_read :
    (pairs : List (Text × Text)) (rest : List Text) (p : Parsed)
    → All (λ q. IsKey q.0) pairs
    → parse_loop argument (pair_words (codes "--env") pairs ++ rest) p
      ≡ parse_loop argument rest (record p { env = assign_all pairs p.env })
unfolding parse_loop assign_all
env_read [] rest p h = refl
env_read ((k, v) ∷ pairs) rest p h =
    rw (parse_loop, store_env k v p h.0)
      (env_read pairs rest (record p { env = assign k v p.env }) h.1)

store_widget :
    (k v : Text) (p : Parsed)
    → IsKey k
    → store_value widget (k ++ b'=' ∷ v) p
      ≡ updates (record p { widget_params = assign k v p.widget_params })
unfolding store_value
store_widget k v p h = rw (pair_read k v h) refl

widget_read :
    (pairs : List (Text × Text)) (p : Parsed)
    → All (λ q. IsKey q.0) pairs
    → parse_loop argument (pair_words (codes "--widget") pairs) p
      ≡ parsed (record p { widget_params = assign_all pairs p.widget_params })
unfolding parse_loop assign_all
widget_read [] p h = refl
widget_read ((k, v) ∷ pairs) p h =
    rw (parse_loop, store_widget k v p h.0)
      (widget_read pairs (record p { widget_params = assign k v p.widget_params }) h.1)

no_dash :
    (file : Text)
    → starts_with file (codes "-") ≡ false
    → (same file (codes "--help") ≡ false) × (same file (codes "-h") ≡ false)
no_dash [] h = (refl, refl)
no_dash (c ∷ s) h = (ground arith, ground arith)

file_read :
    (file : Text) (rest ys : List Text)
    → starts_with file (codes "-") ≡ false
    → parse_loop argument (file ∷ rest) (record no_options { script_args = ys })
      ≡ parse_loop argument rest (record no_options { script_args = ys; file_path = some file })
unfolding parse_loop
file_read file rest ys h =
    let (long, short) = no_dash file h in rw (parse_loop, read_argument, long, short, h) refl

split_delimiter-append :
    (xs ys : List Text)
    → All (λ x. same x (codes "--") ≡ false) xs
    → split_delimiter (xs ++ codes "--" ∷ ys) ≡ (xs, ys)
unfolding split_delimiter
split_delimiter-append [] ys h = refl
split_delimiter-append (x ∷ xs) ys h = ground (arith, split_delimiter-append xs ys)

-- A command line with a file, options that say what a record of them does, `--` and further words
-- is read as that record and those words, if no word in front of the `--` is one itself, the file
-- does not start with a dash, and the keys are not empty and have no equals sign. Of two pairs with
-- one key the later value is kept.
pub parse_args-words :
    (file : Text) (p : Parsed) (ys : List Text)
    → starts_with file (codes "-") ≡ false
    → All (λ x. same x (codes "--") ≡ false) (words file p)
    → All (λ q. IsKey q.0) p.env
    → All (λ q. IsKey q.0) p.widget_params
    → parse_args (words file p ++ codes "--" ∷ ys)
      ≡ parsed (record p {
        file_path = some file;
        env = assign_all p.env [];
        widget_params = assign_all p.widget_params [];
        script_args = ys;
      })
unfolding parse_args
parse_args-words file p ys h k e w =
    let w10 = pair_words (codes "--widget") p.widget_params in
    let w9 = pair_words (codes "--env") p.env ++ w10 in
    let w8 = flag_words (codes "--keep-context") p.keep_context ++ w9 in
    let w7 = option_words (codes "--context-id") p.context_id ++ w8 in
    let w6 = flag_words (codes "--no-start-cluster") (not p.start_cluster) ++ w7 in
    let w5 = flag_words (codes "--serverless") p.serverless ++ w6 in
    let w4 = option_words (codes "--cluster") p.cluster ++ w5 in
    let w3 = option_words (codes "--token") p.token ++ w4 in
    let w2 = option_words (codes "--host") p.host ++ w3 in
    let w1 = option_words (codes "--target") p.target ++ w2 in
    let p1 = record no_options { script_args = ys; file_path = some file } in
    let p2 : Parsed = record p1 { target = p.target } in
    let p3 : Parsed = record p2 { host = p.host } in
    let p4 : Parsed = record p3 { token = p.token } in
    let p5 : Parsed = record p4 { cluster = p.cluster } in
    let p6 : Parsed = record p5 { serverless = p.serverless } in
    let p7 : Parsed = record p6 { start_cluster = p.start_cluster } in
    let p8 : Parsed = record p7 { context_id = p.context_id } in
    let p9 : Parsed = record p8 { keep_context = p.keep_context } in
    let p10 : Parsed = record p9 { env = assign_all p.env [] } in
    rw (split_delimiter-append (words file p) ys k) (
      file_read file w1 ys h
      ∙ (target_read p.target w2 p1 refl
          ∙ (host_read p.host w3 p2 refl
              ∙ (token_read p.token w4 p3 refl
                  ∙ (cluster_read p.cluster w5 p4 refl
                      ∙ (serverless_read p.serverless w6 p5 refl
                          ∙ (start_cluster_read p.start_cluster w7 p6 refl
                              ∙ (context_id_read p.context_id w8 p7 refl
                                  ∙ (keep_context_read p.keep_context w9 p8 refl
                                      ∙ (env_read p.env w10 p9 e
                                          ∙ widget_read p.widget_params p10 w))))))))))
