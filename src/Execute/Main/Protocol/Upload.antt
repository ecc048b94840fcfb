-- ===== src/Execute/Main/Protocol/Upload.antt =====
-- The calls of the Databricks CLI keep the protocol.
use databricks_vscode.Prelude.{
  true, false, not, Option, none, some, List, ◌∷◌, Text, codes, same, same_iff, ◌==◌, ◌≡◌, refl,
  arith,
}
use databricks_vscode.Execute.Args.{Parsed}
use databricks_vscode.Execute.Main.Call.{
  Members, Failure, Reply, answers, throws, Finished, Closed, finished, finished_reply, Command,
  version, validate, sync, auth_env, Act, spawned, State, pure, next, ◌>>=◌, handle, catch, settle,
}
use databricks_vscode.Execute.Main.Holds.{
  Ends, Fact, Any, Also, Holds, >>=-Holds, catch-Holds, pure-Holds, throw-Holds, fail-Holds,
  if-Holds, fail_if-Holds, or_fail-Holds,
}
use databricks_vscode.Execute.Main.World.{World, Config}
use databricks_vscode.Execute.Main.Bundle.{
  Bundle, token_of, run_databricks_cli, no_cli, check_version, parse_output, read_config,
  check_mode, refused_mode, locate, upload, cli_token, resolve_token,
}
use databricks_vscode.Execute.Main.Program.{prepare_bundle}
use databricks_vscode.Execute.Main.Protocol.{
  same_target, any_act, is_checked, is_uploaded, allows, is_validated, is_due, IsLawful, is_created,
}

same_target_refl : (t : Option Text) → same_target t t ≡ true
same_target_refl none = refl
same_target_refl (some s) = (same_iff s s).1 refl

-- `F` is a fact that only the creation of a context can end, `E` what holds of a run that does
-- not go on.
module _ (w : World) (F E : Fact)
    (calm : (a : Act) (h : List Act) → is_created a ≡ false → F h → F (a ∷ h)) where
  abbrev I : Fact
  I = Also (IsLawful w) F

  abbrev Checked : Fact
  Checked h = any_act is_checked h ≡ true

  abbrev Validated : Option Text → Fact
  Validated target h = any_act (is_validated w target) h ≡ true

  abbrev pub Uploaded : Fact
  Uploaded h = any_act is_uploaded h ≡ true

  recorded :
      (Q : Finished → Fact) (command : Command) (env : Members) (reply : Reply Closed) (s : State)
      → I s.history
      → is_due w (spawned command env reply) s.history ≡ true
      → ((c : Closed) → Q (finished c) (spawned command env (answers c) ∷ s.history))
      → Ends I E Q (
          settle
            (finished_reply reply)
            (record s { history = spawned command env reply ∷ s.history }))
  recorded Q command env (answers c) s i due after = (((due, i.0), calm _ _ refl i.1), after c)
  recorded Q command env (throws e) s i due after = ((due, i.0), calm _ _ refl i.1)

  -- A call of the CLI whose answer is on record.
  run_databricks_cli-Holds :
      {P : Fact} {Q : Finished → Fact} (command : Command) (env : Members)
      → ((h : List Act) (reply : Reply Closed)
          → P h
          → is_due w (spawned command env reply) h ≡ true)
      → ((h : List Act) (c : Closed) → P h → Q (finished c) (spawned command env (answers c) ∷ h))
      → Holds I E P (run_databricks_cli w command env) Q
  unfolding run_databricks_cli
  run_databricks_cli-Holds {Q = Q} command env due after = record {
    at = λ s i p.
        recorded Q command env (w.spawn command env s.history) s i (due s.history _ p)
          (λ c. after s.history c p);
  }

  no_cli-Holds : {Q : Finished → Fact} (e : Failure) → Holds I E Any (no_cli w e) Q
  unfolding no_cli
  no_cli-Holds e =
      if-Holds I E (same e.code (codes "ENOENT")) (λ h. fail-Holds I E _) (λ h. throw-Holds I E)

  -- After the call and the test of its code.
  check_version-Holds : (env : Members) → Holds I E Any (check_version w env) (λ d. Checked)
  unfolding check_version
  check_version-Holds env =
      >>=-Holds I E
        (catch-Holds I E
          (run_databricks_cli-Holds {Q = λ r h. r.code == 0 ≡ true → Checked h} version env
            (λ h reply p. refl) (λ h r p zero_code. ground arith))
          no_cli-Holds)
        (λ r. fail_if-Holds I E (not (r.code == 0)) _ (λ ok h k. k (ground arith)))

  check_mode-Holds :
      {P Q : Fact} (c : Config) (mode : Option Text)
      → (mode ≡ none → (h : List Act) → P h → Q h)
      → Holds I E P (check_mode c mode) (λ c'. Q)
  check_mode-Holds c none k = record { at = λ s i p. (i, k refl s.history p) }
  check_mode-Holds c (some mode) k = fail-Holds I E _

  -- What an answer makes of the bundle if it is good.
  abbrev Answered : Option Text → Finished → Fact
  Answered target r h =
      r.code == 0 ≡ true → allows (parse_output w r.stdout) ≡ true → Validated target h

  read_config-Holds :
      (target : Option Text) (env : Members)
      → Holds I E Checked (read_config w target env) (λ c. Validated target)
  unfolding read_config
  read_config-Holds target env =
      >>=-Holds I E
        (run_databricks_cli-Holds {Q = Answered target} (validate target) env (λ h reply p. p)
          (λ h r p ok allowed. ground (arith, same_target_refl target)))
        (λ r.
          >>=-Holds I E
            (fail_if-Holds I E
              {Q = λ h. allows (parse_output w r.stdout) ≡ true → Validated target h}
              (not (r.code == 0)) _ (λ ok h k. k (ground arith)))
            (λ d.
              >>=-Holds I E
                (or_fail-Holds I E {Q = λ c h. allows (some c) ≡ true → Validated target h}
                  (parse_output w r.stdout) _ (λ c e h k allowed. k (rw e allowed)))
                (λ c. check_mode-Holds c (refused_mode c.mode) (λ e h k. k (rw e refl)))))

  locate-Holds :
      {P : Fact} (host : Option Text) (env : Members) (c : Config)
      → Holds I E P (locate w host env c) (λ b. P)
  unfolding locate
  locate-Holds host env c =
      >>=-Holds I E (or_fail-Holds I E _ _ (λ a e h p. p)) (λ found_host.
        >>=-Holds I E (or_fail-Holds I E _ _ (λ a e h p. p)) (λ root. pure-Holds I E))

  upload-Holds :
      (target : Option Text) (env : Members)
      → Holds I E (Validated target) (upload w target env) (λ d. Uploaded)
  unfolding upload
  upload-Holds target env =
      >>=-Holds I E
        (run_databricks_cli-Holds {Q = λ r h. r.code == 0 ≡ true → Uploaded h} (sync target) env
          (λ h reply p. p) (λ h r p zero_code. ground arith))
        (λ r. fail_if-Holds I E (not (r.code == 0)) _ (λ ok h k. k (ground arith)))

  token_settled :
      (host : Text) (env : Members) (reply : Reply Closed) (s : State)
      → I s.history
      → Uploaded s.history
      → Ends I E
          (λ t. Uploaded)
          (handle
            (λ e. pure none)
            (next
              (λ r. pure (token_of w r))
              (settle
                (finished_reply reply)
                (record s { history = spawned (auth_env host) env reply ∷ s.history }))))
  token_settled host env (answers r) s i p = (((p, i.0), calm _ _ refl i.1), p)
  token_settled host env (throws e) s i p = (((p, i.0), calm _ _ refl i.1), p)

  resolve_token-Holds :
      (token : Option Text) (b : Bundle)
      → Holds I E Uploaded (resolve_token w token b) (λ t. Uploaded)
  unfolding resolve_token cli_token catch run_databricks_cli ◌>>=◌
  resolve_token-Holds none b = record {
    at = λ s i p. token_settled b.host b.env (w.spawn (auth_env b.host) b.env s.history) s i p;
  }
  resolve_token-Holds (some token) b = pure-Holds I E

  -- Up to the upload, whatever the options.
  pub prepare_bundle-Holds : (p : Parsed) → Holds I E Any (prepare_bundle w p) (λ b. Uploaded)
  unfolding prepare_bundle
  prepare_bundle-Holds p = >>=-Holds I E (check_version-Holds _) (λ d.
      >>=-Holds I E (read_config-Holds _ _) (λ config. >>=-Holds I E (locate-Holds _ _ config) (λ b.
        >>=-Holds I E (upload-Holds _ _)
          (λ d'. >>=-Holds I E (resolve_token-Holds _ b) (λ token. pure-Holds I E)))))
