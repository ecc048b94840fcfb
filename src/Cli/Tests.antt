-- ===== src/Cli/Tests.antt =====
-- Runs of child processes, and command lines.
use databricks_vscode.Prelude.{
  ◌≡◌, refl, sym, ◌∙◌, append-nil, append_assoc, true, false, none, some, List, [], ◌∷◌, ◌++◌, Text,
  codes,
}
use databricks_vscode.Cli.Process.{
  Bytes, resolved, quiet, Options, Event, stdout_data, stderr_data, close, cancel, grace_over,
  concat, step, run, start, on_stdout_data,
}
use databricks_vscode.Cli.Process.Verdict.{expected, verdict, settles_as_first}
use databricks_vscode.Cli.Process.Steps.{settlements}
use databricks_vscode.Cli.Process.Conduct.{
  signals, was_terminated, was_forced, settled_signals_nothing, cancel_escalates,
}
use databricks_vscode.Cli.Process.Streams.{heard, feed, stdout_heard}
use databricks_vscode.Cli.Spawn.{terminate_process_tree, sigterm, sigkill, group, direct, taskkill}

-- A decoder of a code with one unit for each byte, which holds back what it gets up to the end.
abbrev decode : Bytes → Text
decode b = b

abbrev hold : Bytes → Bytes → Bytes × Text
hold d b = (d ++ b, [])

abbrev release : Bytes → Text
release d = d

abbrev options : Options
options = record { token = quiet; on_stdout = true; on_stderr = false }

feed-hold :
    (bs : List Bytes) (d : Bytes)
    → (feed hold d bs).1 ++ release (feed hold d bs).0 ≡ d ++ concat bs
feed-hold [] d = sym (append-nil d)
feed-hold (b ∷ bs) d = feed-hold bs (d ++ b) ∙ append_assoc d b (concat bs)

abbrev events : List (Event Text)
events =
    stdout_data (codes "one")
    ∷ stderr_data (codes "x")
    ∷ cancel none
    ∷ stdout_data (codes "two")
    ∷ []

settles_as_first_example :
    settlements
      (run decode hold release options
        (events ++ close none ∷ close (some 0) ∷ [])
        (start decode hold release options [])).effects
    ≡ resolved
        (record { stdout = codes "onetwo"; stderr = codes "x"; exit_code = none; cancelled = true })
      ∷ []
unfolding expected verdict
settles_as_first_example =
    settles_as_first decode hold release options [] (events ++ close none ∷ close (some 0) ∷ [])

settled_signals_nothing_example :
    signals
      (run decode hold release options (cancel none ∷ grace_over ∷ []) (
        run decode hold release options
          (events ++ close none ∷ [])
          (start decode hold release options []))).effects
    ≡ signals
        (run decode hold release options
          (events ++ close none ∷ [])
          (start decode hold release options [])).effects
unfolding run step start
settled_signals_nothing_example =
    settled_signals_nothing decode hold release options [] (events ++ close none ∷ [])
      (cancel none ∷ grace_over ∷ []) refl

cancel_escalates_example :
    let r = run decode hold release options events (start decode hold release options []) in
    (was_terminated r.effects ≡ true)
    × (was_forced (step decode hold release options grace_over r).effects ≡ true)
unfolding run step start
cancel_escalates_example = cancel_escalates decode hold release options [] events refl refl

stdout_heard_example :
    let r = run decode hold release options events (start decode hold release options []) in
    heard (step decode hold release options (close (some 0)) r).effects ≡ codes "onetwo"
unfolding run step start on_stdout_data
stdout_heard_example =
    stdout_heard decode hold release options [] events (some 0) (λ bs. feed-hold bs []) refl refl

-- A group that is gone: the child itself is signalled. A child with no process gets only that.
kill_a_group :
    (terminate_process_tree (λ pid signal. false) false (some 7) sigterm
      ≡ group 7 sigterm ∷ direct sigterm ∷ [])
    × (terminate_process_tree (λ pid signal. true) false (some 7) sigkill ≡ group 7 sigkill ∷ [])
    × (terminate_process_tree (λ pid signal. true) true (some 7) sigterm ≡ taskkill 7 ∷ [])
    × (terminate_process_tree (λ pid signal. true) true none sigterm ≡ direct sigterm ∷ [])
unfolding terminate_process_tree
kill_a_group = (refl, refl, refl, refl)
