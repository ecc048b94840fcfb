-- ===== src/Cli/Process/Verdict.antt =====
-- How a run of a child process ends: the first event that settles it decides.
use databricks_vscode.Prelude.{
  ◌≡◌, refl, ap, ◌∙◌, Bool, true, false, none, some, List, [], ◌∷◌, ◌++◌, Text,
}
use databricks_vscode.Cli.Process.{
  Bytes, Effect, resolved, rejected, Run, Token, no_token, quiet, fires, Options, Event,
  stdout_data, stderr_data, stream_error, child_error, close, cancel, grace_over, settle_result,
  request_cancel, step, run, fresh, subscribe, start,
}
use databricks_vscode.Cli.Process.Steps.{
  settlements, listening, run-settled, Open, on_stdout_data-Open, on_stderr_data-Open,
  grace_over-Open, settle_result-settles, reject_from_stream_error-settles, child_error-settles,
  request_cancel-Open, request_cancel-settles, on_cancel-ignored, on_cancel-heard,
}

module _ {E : Type 0} (decode : Bytes → Text) where
  -- The end of a run, read off its events: `out` and `err` are the bytes so far, and `listening` tells
  -- whether a cancellation still counts.
  unfoldable pub verdict :
      (out err : Bytes) → (listening cancelled : Bool) → List (Event E) → List (Effect E)
  verdict out err listening cancelled [] = []
  verdict out err listening cancelled (stdout_data b ∷ es) =
      verdict (out ++ b) err listening cancelled es
  verdict out err listening cancelled (stderr_data b ∷ es) =
      verdict out (err ++ b) listening cancelled es
  verdict out err listening cancelled (stream_error e ∷ es) = rejected e ∷ []
  verdict out err listening cancelled (child_error e ∷ es) = rejected e ∷ []
  verdict out err listening cancelled (close c ∷ es) =
      resolved
        (record { stdout = decode out; stderr = decode err; exit_code = c; cancelled = cancelled })
      ∷ []
  verdict out err false cancelled (cancel closes ∷ es) = verdict out err false cancelled es
  verdict out err true cancelled (cancel none ∷ es) = verdict out err false true es
  verdict out err true cancelled (cancel (some c) ∷ es) =
      resolved
        (record { stdout = decode out; stderr = decode err; exit_code = c; cancelled = true })
      ∷ []
  verdict out err listening cancelled (grace_over ∷ es) = verdict out err listening cancelled es

  -- A token that fires while `run` subscribes counts as a first event.
  unfoldable pub expected : Token → List (Event E) → List (Effect E)
  expected no_token es = verdict [] [] false false es
  expected quiet es = verdict [] [] true false es
  expected (fires closes) es = verdict [] [] true false (cancel closes ∷ es)

  module _ {D : Type 0} (write : D → Bytes → D × Text) (flush : D → Text) (o : Options) where
    rest :
        (es : List (Event E)) {q r : Run D E}
        → q ≡ r
        → settlements (run decode write flush o es q).effects
          ≡ settlements (run decode write flush o es r).effects
    rest es h = ap (λ s. settlements (run decode write flush o es s).effects) h

    run-verdict :
        (es : List (Event E)) (out err : Bytes) (l c : Bool) (r : Run D E)
        → Open out err l c r
        → settlements (run decode write flush o es r).effects ≡ verdict out err l c es
    unfolding run verdict step
    run-verdict [] out err l c r i = i.none_yet
    run-verdict (stdout_data b ∷ es) out err l c r i =
        run-verdict es (out ++ b) err l c _
          (on_stdout_data-Open decode write flush o out err b l c r i)
    run-verdict (stderr_data b ∷ es) out err l c r i =
        run-verdict es out (err ++ b) l c _
          (on_stderr_data-Open decode write flush o out err b l c r i)
    run-verdict (stream_error e ∷ es) out err l c r i =
        let (k, h) = reject_from_stream_error-settles decode write flush o out err l c e r i in
        run-settled decode write flush o es _ k ∙ h
    run-verdict (child_error e ∷ es) out err l c r i =
        let (k, h) = child_error-settles decode write flush o out err l c e r i in
        run-settled decode write flush o es _ k ∙ h
    run-verdict (close x ∷ es) out err l c r i =
        let (k, h) = settle_result-settles decode write flush o out err l c x r i in
        run-settled decode write flush o es _ k ∙ h
    run-verdict (cancel closes ∷ es) out err false c r i =
        rest es (on_cancel-ignored decode write flush o closes r i.listening_is)
        ∙ run-verdict es out err false c r i
    run-verdict (cancel none ∷ es) out err true c r i =
        rest es (on_cancel-heard decode write flush o none r i.listening_is)
        ∙ run-verdict es out err false true _
            (request_cancel-Open decode write flush o out err true c r i)
    run-verdict (cancel (some x) ∷ es) out err true c r i =
        let (k, h) = request_cancel-settles decode write flush o out err true c x r i in
        rest es (on_cancel-heard decode write flush o (some x) r i.listening_is)
        ∙ (run-settled decode write flush o es _ k ∙ h)
    run-verdict (grace_over ∷ es) out err l c r i =
        run-verdict es out err l c _ (grace_over-Open decode write flush o out err l c r i)

    fresh-Open : (d : D) → Open {E = E} [] [] false false (fresh d)
    unfolding listening
    fresh-Open d = record {
      unsettled = refl;
      none_yet = refl;
      out_is = refl;
      err_is = refl;
      listening_is = refl;
      cancelled_is = refl;
    }

    subscribe-verdict :
        (t : Token) (d : D) (es : List (Event E))
        → settlements
            (run decode write flush o es (subscribe decode write flush o t (fresh d))).effects
          ≡ expected t es
    unfolding subscribe expected verdict listening request_cancel settle_result
    subscribe-verdict no_token d es = run-verdict es [] [] false false _ (fresh-Open d)
    subscribe-verdict quiet d es = run-verdict es [] [] true false _ (record {
      unsettled = refl;
      none_yet = refl;
      out_is = refl;
      err_is = refl;
      listening_is = refl;
      cancelled_is = refl;
    })
    subscribe-verdict (fires none) d es = run-verdict es [] [] false true _ (record {
      unsettled = refl;
      none_yet = refl;
      out_is = refl;
      err_is = refl;
      listening_is = refl;
      cancelled_is = refl;
    })
    subscribe-verdict (fires (some x)) d es =
        let (k, h) =
          request_cancel-settles decode write flush o [] [] false false x _ (fresh-Open d) in
        run-settled decode write flush o es _ k ∙ h

    -- The promise of a run ends at most once, and as the first event that settles it says: an error
    -- of a stream or of the child rejects it, and the end of the child resolves it with its code, all
    -- bytes that came before, in order, and whether a cancellation came before. A token that fires
    -- while `run` subscribes counts as a first event, and only the first cancellation counts.
    pub settles_as_first :
        (d : D) (es : List (Event E))
        → settlements (run decode write flush o es (start decode write flush o d)).effects
          ≡ expected o.token es
    unfolding start
    settles_as_first d es = subscribe-verdict o.token d es
