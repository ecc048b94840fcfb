-- ===== src/Execute/Main/Protocol/Runs.antt =====
-- A whole run: what its parts keep, it leaves.
use databricks_vscode.Prelude.{
  false, not, Option, none, some, List, [], ◌∷◌, Text, codes, same, ◌≡◌, refl, Bool-cases, inl, inr,
}
use databricks_vscode.Execute.Output.{NotebookType, without_dot}
use databricks_vscode.Execute.Args.{Parsed, Parse, parsed, help, failed, parse_args}
use databricks_vscode.Execute.Main.Call.{
  Compute, serverless_compute, existing_cluster, Act, wrote_error, State, Outcome, done, threw,
  exited, pending, Done,
}
use databricks_vscode.Execute.Main.Holds.{
  Fact, Any, Also, Holds, >>=-Holds, catch-Holds, pure-Holds, throw-Holds, fail-Holds, exit-Holds,
  settle-Holds, ask-Holds, if-Holds, fail_if-Holds, or_fail-Holds,
}
use databricks_vscode.Execute.Main.Leaves.{Leaves, >>=-Leaves, Holds-Leaves, weaken-Leaves}
use databricks_vscode.Execute.Main.World.{World}
use databricks_vscode.Execute.Main.Python
use databricks_vscode.Execute.Main.Program
use databricks_vscode.Execute.Main.Protocol.{IsLawful, is_created}
use databricks_vscode.Execute.Main.Protocol.Upload.{prepare_bundle-Holds}
use databricks_vscode.Execute.Main.Protocol.Choice.{Since, Ready}
use databricks_vscode.Execute.Main.Protocol.Choice.{prepare_compute-Holds}
use databricks_vscode.Execute.Main.Protocol.Upload.{prepare_bundle-Holds}
use databricks_vscode.Execute.Main.Protocol.Notebooks.{notebook_mode-Holds}

-- `F` is a fact that only the creation of a context can end, and `T` what is to be shown of the
-- history in the end. What is left to show is that a run of a Python file leaves it.
module _ (w : World) (F T : Fact)
    (calm : (a : Act) (h : List Act) → is_created a ≡ false → F h → F (a ∷ h))
    (leave : (h : List Act) → IsLawful w h → F h → T h) (p : Parsed)
    (python : (j : Python.Job) (id : Text)
      → j.keep ≡ Program.should_keep p
      → Leaves T
          (Also (Since w F) (Ready (existing_cluster id)))
          (Python.run_python w j p.context_id id)) where
  abbrev I : Fact
  I = Also (IsLawful w) F

  check_file-Holds : (file : Text) → Holds I I Any (Program.check_file w file) (λ d. Any)
  unfolding Program.check_file
  check_file-Holds file =
      catch-Holds I I
        (>>=-Holds I I (settle-Holds I I _)
          (λ is_file. fail_if-Holds I I (not is_file) _ (λ e h q. q)))
        (λ e. fail-Holds I I _)

  read_source-Holds : (file : Text) → Holds I I Any (Program.read_source w file) (λ f. Any)
  unfolding Program.read_source
  read_source-Holds file = >>=-Holds I I (check_file-Holds file) (λ d.
      >>=-Holds I I
        (if-Holds I I (Program.has_source_extension (without_dot (w.extension file)))
          (λ e. settle-Holds I I _) (λ e. pure-Holds I I))
        (λ line. pure-Holds I I))

  check_options-Holds : (f : Program.Source) → Holds I I Any (Program.check_options p f) (λ d. Any)
  unfolding Program.check_options
  check_options-Holds f = >>=-Holds I I (fail_if-Holds I I _ _ (λ e h q. q)) (λ d.
      >>=-Holds I I (fail_if-Holds I I _ _ (λ e h q. q)) (λ d.
        >>=-Holds I I (fail_if-Holds I I _ _ (λ e h q. q))
          (λ d. fail_if-Holds I I _ _ (λ e h q. q))))

  run_source-Leaves :
      (type : Option NotebookType) (j : Python.Job) (compute : Compute)
      → j.keep ≡ Program.should_keep p
      → Leaves T (Also (Since w F) (Ready compute)) (Program.run_source w p type j compute)
  unfolding Program.run_source Program.run_file
  run_source-Leaves none j serverless_compute keep =
      Holds-Leaves T {Q = λ d. Any} (fail-Holds (Since w F) (Since w F) _)
        (λ h i. leave h i.0.0 i.0.1)
  run_source-Leaves none j (existing_cluster id) keep = python j id keep
  run_source-Leaves (some type) j compute keep =
      Holds-Leaves T
        (notebook_mode-Holds w F (Since w F) calm (λ h i. i) j.remote_file p.script_args p.env
          p.widget_params compute)
        (λ h i. leave h i.0.0 i.0.1)

  run_in_bundle-Leaves :
      (f : Program.Source) (root : Text) → Leaves T (Also I Any) (Program.run_in_bundle w p f root)
  unfolding Program.run_in_bundle
  run_in_bundle-Leaves f root =
      >>=-Leaves T (fail_if-Holds I I _ _ (λ e h q. q)) (λ h i. leave h i.0 i.1)
        (λ d.
          >>=-Leaves T (prepare_bundle-Holds w F I calm p) (λ h i. leave h i.0 i.1)
            (λ b.
              weaken-Leaves T
                (>>=-Leaves T
                  (prepare_compute-Holds w F (Since w F) calm p.serverless p.start_cluster p.cluster
                    b.config)
                  (λ h i. leave h i.0.0 i.0.1)
                  (λ compute.
                    >>=-Leaves T (settle-Holds (Since w F) (Since w F) _)
                      (λ h i. leave h i.0.0 i.0.1)
                      (λ file. run_source-Leaves f.notebook_type _ compute refl)))
                (λ h i. (i, tt))))

  run_path-Leaves : (path : Text) → Leaves T (Also I Any) (Program.run_path w p path)
  unfolding Program.run_path
  run_path-Leaves path =
      >>=-Leaves T (read_source-Holds _) (λ h i. leave h i.0 i.1)
        (λ f.
          >>=-Leaves T (check_options-Holds f) (λ h i. leave h i.0 i.1)
            (λ d.
              >>=-Leaves T
                (or_fail-Holds I I {P = Any} {Q = λ root. Any} (Program.bundle_root w f.file) _
                  (λ root e h q. q))
                (λ h i. leave h i.0 i.1) (λ root. run_in_bundle-Leaves f root)))

  pub run_parsed-Leaves : (path : Option Text) → Leaves T (Also I Any) (Program.run_parsed w p path)
  unfolding Program.run_parsed
  run_parsed-Leaves (some (c ∷ s)) = run_path-Leaves (c ∷ s)
  run_parsed-Leaves (some []) =
      Holds-Leaves T {Q = λ d. Any} (exit-Holds I I (λ h i. i)) (λ h i. leave h i.0 i.1)
  run_parsed-Leaves none =
      Holds-Leaves T {Q = λ d. Any} (exit-Holds I I (λ h i. i)) (λ h i. leave h i.0 i.1)

-- The same from the arguments on, if an error message keeps `T`.
module _ (w : World) (F T : Fact)
    (calm : (a : Act) (h : List Act) → is_created a ≡ false → F h → F (a ∷ h))
    (leave : (h : List Act) → IsLawful w h → F h → T h)
    (message : (t : Text) (h : List Act) → T h → T (wrote_error t ∷ h)) where
  abbrev pub LeavesPython : Parse → Type 0
  LeavesPython q =
      (p : Parsed)
      → q ≡ parsed p
      → (j : Python.Job) (id : Text) → j.keep ≡ Program.should_keep p
      → Leaves T (Also (Since w F) (Ready (existing_cluster id)))
          (Python.run_python w j p.context_id id)

  run_parse-Leaves :
      (q : Parse)
      → LeavesPython q
      → Leaves T (Also (Also (IsLawful w) F) Any) (Program.run_parse w q)
  unfolding Program.run_parse
  run_parse-Leaves (parsed p) python =
      run_parsed-Leaves w F T calm leave p (python p refl) p.file_path
  run_parse-Leaves help python =
      Holds-Leaves T {Q = λ d. Any}
        (exit-Holds (Also (IsLawful w) F) (Also (IsLawful w) F) (λ h i. i)) (λ h i. leave h i.0 i.1)
  run_parse-Leaves (failed m) python =
      Holds-Leaves T {Q = λ d. Any} (throw-Holds (Also (IsLawful w) F) (Also (IsLawful w) F))
        (λ h i. leave h i.0 i.1)

  main-Leaves :
      (argv : List Text)
      → LeavesPython (parse_args argv)
      → Leaves T (Also (Also (IsLawful w) F) Any) (Program.main w argv)
  unfolding Program.main
  main-Leaves [] python = run_parse-Leaves _ python
  main-Leaves (a ∷ argv) python = elim (Bool-cases (same a (codes "init"))) [
    | inl init ↦ rw init (
        Holds-Leaves T (ask-Holds (Also (IsLawful w) F) (Also (IsLawful w) F) (w.run_init argv))
          (λ h i. leave h i.0 i.1))
    | inr other ↦ rw other (run_parse-Leaves _ python)
  ]

  conclude_leaves : (r : Outcome Done × State) → T r.1.history → T (Program.conclude w r).1
  conclude_leaves (done d, s) t = t
  conclude_leaves (threw e, s) t = message _ s.history t
  conclude_leaves (exited n, s) t = t
  conclude_leaves (pending, s) t = t

  pub program_leaves :
      (argv : List Text) → F [] → LeavesPython (parse_args argv) → T (Program.program w argv).1
  unfolding Program.program
  program_leaves argv start python =
      conclude_leaves (Program.main w argv (record { history = []; exit_code = none }))
        ((main-Leaves argv python).at (record { history = []; exit_code = none }) ((tt, start), tt))
