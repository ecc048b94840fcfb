-- ===== src/Execute/Tests.antt =====
-- A command line, an output with an error behind it, and a template that gets its arguments.
use databricks_vscode.Prelude.{
  Option, none, ℕ, true, some, List, [], ◌∷◌, ◌++◌, ◌≡◌, refl, Text, codes,
}
use databricks_vscode.Execute.Args.{Parsed, no_options, parsed, parse_args}
use databricks_vscode.Execute.Args.Printed.{words, assign_all, parse_args-words}
use databricks_vscode.Execute.Output.{cut, split_stdout_error_envelope}
use databricks_vscode.Execute.Output.Boundary.{Splits, split_stdout_error_envelope-Splits}
use databricks_vscode.Execute.Bootstrap.{insert_args}
use databricks_vscode.Execute.Bootstrap.Arguments.{read_list, arguments_reach_python}
use databricks_vscode.Execute.Paths.{normalize_host}
use databricks_vscode.Execute.Init.{
  Document, kept, made, updated, new_document, entries_of, no_init_options, run_init,
}
use databricks_vscode.Execute.Init.Targets.{entry_of, init_keeps}

abbrev options : Parsed
options = record no_options {
  cluster = some (codes "c");
  keep_context = true;
  env = (codes "A", codes "1") ∷ (codes "A", codes "2") ∷ [];
}

abbrev last_words : List Text
last_words = codes "--env" ∷ []

parse_args-words_example :
    parse_args (words (codes "a.py") options ++ codes "--" ∷ last_words)
    ≡ parsed (record options {
      file_path = some (codes "a.py");
      env = assign_all ((codes "A", codes "1") ∷ (codes "A", codes "2") ∷ []) [];
      widget_params = assign_all [] [];
      script_args = last_words;
    })
parse_args-words_example =
    parse_args-words (codes "a.py") options last_words refl
      (refl, (refl, (refl, (refl, (refl, (refl, (refl, (refl, tt))))))))
      ((refl, refl), ((refl, refl), tt)) tt

split_stdout_error_envelope-Splits_example :
    Splits
      (codes "##")
      (codes "out##err")
      (split_stdout_error_envelope (codes "out##err") (codes "##"))
split_stdout_error_envelope-Splits_example =
    split_stdout_error_envelope-Splits (codes "out##err") (codes "##")

abbrev template : Text
template = codes "import os\nargs = []\nrun()"

arguments_reach_python_example :
    (literal : Text) × (insert_args (codes "a.py" ∷ codes "it's" ∷ []) template
      ≡ codes "import os\n" ++ (codes "args = " ++ (literal ++ codes "\nrun()")))
    × (read_list literal ≡ some (codes "a.py" ∷ codes "it's" ∷ [], codes ";"))
unfolding cut
arguments_reach_python_example =
    arguments_reach_python (codes "a.py") (codes "it's" ∷ []) template (codes "import os\n")
      (codes "\nrun()") refl
      ((refl, (refl, (refl, (refl, tt)))), ((refl, (refl, (refl, (refl, tt)))), tt))
      (refl, (refl, tt))

abbrev no_document : Text → Option (Document ℕ)
no_document raw = none

abbrev document : Document ℕ
document = record {
  others = (codes "bundle", 1) ∷ [];
  targets = some ((codes "prod", kept 2) ∷ []);
}

abbrev the_document : Text → Option (Document ℕ)
the_document raw = some document

init_keeps_example :
    (d' : Document ℕ) × (run_init the_document
        (some (codes "raw"))
        (codes "dir")
        (codes "h")
        (codes "c")
        no_init_options
      ≡ updated d')
    × (d'.others ≡ (codes "bundle", 1) ∷ [])
    × (entry_of (codes "dbexec") (entries_of d'.targets)
        ≡ some (made (record { cluster_id = codes "c"; host = normalize_host (codes "h") })))
    × (entry_of (codes "prod") (entries_of d'.targets) ≡ some (kept 2))
init_keeps_example =
    init_keeps the_document (codes "raw") (codes "dir") (codes "h") (codes "c") no_init_options
      document b'h' b'c' [] [] (codes "prod") refl refl refl refl

-- A file that is not understood is replaced.
replaced :
    run_init no_document (some (codes "raw")) (codes "dir") (codes "h") (codes "c") no_init_options
    ≡ new_document
        (codes "dir")
        (codes "dbexec")
        (record { cluster_id = codes "c"; host = normalize_host (codes "h") })
unfolding run_init
replaced = refl
