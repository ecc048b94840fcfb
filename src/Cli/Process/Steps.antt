-- ===== src/Cli/Process/Steps.antt =====
-- What each listener does to a run that has not settled, and to one that has.
use databricks_vscode.Prelude.{
  ℕ, ◌≡◌, refl, ap, ◌∙◌, Bool, true, false, not, ◌&&◌, Option, none, some, List, [], ◌∷◌, ◌++◌,
  Text, append_assoc, append-nil, arith, Bool-cases, inl, inr,
}
use databricks_vscode.Cli.Process.{
  Bytes, Effect, terminated, told_stdout, told_stderr, resolved, rejected, Subscription, live, Run,
  Options, Event, stdout_data, stderr_data, stream_error, child_error, close, cancel, grace_over,
  concat, tell, act, settle_result, request_cancel, arm, reject_from_stream_error, on_stdout_data,
  on_stderr_data, step, run,
}

-- The ends of the promise among the effects.
abbrev pub settlements : {E : Type 0} → List (Effect E) → List (Effect E)
settlements [] = []
settlements (resolved x ∷ es) = resolved x ∷ settlements es
settlements (rejected e ∷ es) = rejected e ∷ settlements es
settlements (_ ∷ es) = settlements es

pub settlements-told_stdout :
    {E : Type 0} (b : Bool) (s : Text) (es : List (Effect E))
    → settlements (tell told_stdout b s es) ≡ settlements es
settlements-told_stdout false s es = refl
settlements-told_stdout true [] es = refl
settlements-told_stdout true (c ∷ s) es = refl

pub settlements-told_stderr :
    {E : Type 0} (b : Bool) (s : Text) (es : List (Effect E))
    → settlements (tell told_stderr b s es) ≡ settlements es
settlements-told_stderr false s es = refl
settlements-told_stderr true [] es = refl
settlements-told_stderr true (c ∷ s) es = refl

pub concat-snoc : (bs : List Bytes) (b : Bytes) → concat (bs ++ b ∷ []) ≡ concat bs ++ b
concat-snoc [] b = append-nil b
concat-snoc (c ∷ bs) b = cc (concat-snoc bs b, append_assoc c (concat bs) b)

abbrev is_live : Subscription → Bool
is_live live = true
is_live _ = false

unfoldable pub listening : {D E : Type 0} → Run D E → Bool
listening r = is_live r.cancel_sub && not r.cancelled

-- What is left to come of a run that has not settled.
pub record Open {D E : Type 0} (out err : Bytes) (l c : Bool) (r : Run D E) : Type 0 where
  pub unsettled : r.settled ≡ false
  pub none_yet : settlements r.effects ≡ []
  pub out_is : concat r.stdout_chunks ≡ out
  pub err_is : concat r.stderr_chunks ≡ err
  pub listening_is : listening r ≡ l
  pub cancelled_is : r.cancelled ≡ c

abbrev pub asked : {D E : Type 0} → Run D E → Run D E
asked r = act terminated (record r { cancelled = true })

module _ {D E : Type 0} (decode : Bytes → Text) (write : D → Bytes → D × Text) (flush : D → Text)
    (o : Options) where
  pub step-settled :
      (e : Event E) (r : Run D E)
      → r.settled ≡ true
      → ((step decode write flush o e r).settled ≡ true)
        × (settlements (step decode write flush o e r).effects ≡ settlements r.effects)
  unfolding step on_stdout_data on_stderr_data settle_result request_cancel reject_from_stream_error
  step-settled (stdout_data b) r h = ground arith
  step-settled (stderr_data b) r h = ground arith
  step-settled (stream_error e) r h = ground arith
  step-settled (child_error e) r h = ground arith
  step-settled (close c) r h = ground arith
  step-settled (cancel closes) r h = ground arith
  step-settled grace_over r h = ground arith

  pub run-settled :
      (es : List (Event E)) (r : Run D E)
      → r.settled ≡ true
      → settlements (run decode write flush o es r).effects ≡ settlements r.effects
  unfolding run
  run-settled [] r h = refl
  run-settled (e ∷ es) r h =
      let (k, l) = step-settled e r h in run-settled es (step decode write flush o e r) k ∙ l

  pub on_stdout_data-Open :
      (out err b : Bytes) (l c : Bool) (r : Run D E)
      → Open out err l c r
      → Open (out ++ b) err l c (on_stdout_data decode write flush o b r)
  unfolding on_stdout_data listening
  on_stdout_data-Open out err b l c r i = record {
    unsettled = ground (arith, i.unsettled);
    none_yet = ground (arith, i.none_yet);
    out_is = ground (arith, i.out_is, concat-snoc r.stdout_chunks b);
    err_is = ground (arith, i.err_is);
    listening_is = ground (arith, i.listening_is);
    cancelled_is = ground (arith, i.cancelled_is);
  }

  pub on_stderr_data-Open :
      (out err b : Bytes) (l c : Bool) (r : Run D E)
      → Open out err l c r
      → Open out (err ++ b) l c (on_stderr_data decode write flush o b r)
  unfolding on_stderr_data listening
  on_stderr_data-Open out err b l c r i = record {
    unsettled = ground (arith, i.unsettled);
    none_yet = ground (arith, i.none_yet);
    out_is = ground (arith, i.out_is);
    err_is = ground (arith, i.err_is, concat-snoc r.stderr_chunks b);
    listening_is = ground (arith, i.listening_is);
    cancelled_is = ground (arith, i.cancelled_is);
  }

  pub grace_over-Open :
      (out err : Bytes) (l c : Bool) (r : Run D E)
      → Open out err l c r
      → Open out err l c (step decode write flush o grace_over r)
  unfolding step listening
  grace_over-Open out err l c r i = record {
    unsettled = ground (arith, i.unsettled);
    none_yet = ground (arith, i.unsettled, i.none_yet);
    out_is = ground (arith, i.unsettled, i.out_is);
    err_is = ground (arith, i.unsettled, i.err_is);
    listening_is = ground (arith, i.unsettled, i.listening_is);
    cancelled_is = ground (arith, i.unsettled, i.cancelled_is);
  }

  pub settle_result-settles :
      (out err : Bytes) (l c : Bool) (x : Option ℕ) (r : Run D E)
      → Open out err l c r
      → let s = settle_result decode write flush o x r in
        (s.settled ≡ true)
        × (settlements s.effects
            ≡ resolved
                (record { stdout = decode out; stderr = decode err; exit_code = x; cancelled = c })
              ∷ [])
  unfolding settle_result
  settle_result-settles out err l c x r i = ground (
    arith,
    i.unsettled,
    i.none_yet,
    i.out_is,
    i.err_is,
    i.cancelled_is,
    settlements-told_stdout o.on_stdout (flush r.stdout_decoder) r.effects,
    settlements-told_stderr o.on_stderr (flush r.stderr_decoder)
        (tell told_stdout o.on_stdout (flush r.stdout_decoder) r.effects),
  )

  pub reject_from_stream_error-settles :
      (out err : Bytes) (l c : Bool) (x : E) (r : Run D E)
      → Open out err l c r
      → let s = reject_from_stream_error decode write flush o x r in
        (s.settled ≡ true) × (settlements s.effects ≡ rejected x ∷ [])
  unfolding reject_from_stream_error
  reject_from_stream_error-settles out err l c x r i = ground (arith, i.unsettled, i.none_yet)

  pub child_error-settles :
      (out err : Bytes) (l c : Bool) (x : E) (r : Run D E)
      → Open out err l c r
      → let s = step decode write flush o (child_error x) r in
        (s.settled ≡ true) × (settlements s.effects ≡ rejected x ∷ [])
  unfolding step
  child_error-settles out err l c x r i = ground (arith, i.unsettled, i.none_yet)

  pub asked-Open :
      (out err : Bytes) (l c : Bool) (r : Run D E)
      → Open out err l c r
      → Open out err false true (asked r)
  unfolding listening
  asked-Open out err l c r i = record {
    unsettled = i.unsettled;
    none_yet = i.none_yet;
    out_is = i.out_is;
    err_is = i.err_is;
    listening_is = ground arith;
    cancelled_is = refl;
  }

  pub arm-Open :
      (out err : Bytes) (l c : Bool) (r : Run D E) → Open out err l c r → Open out err l c (arm r)
  unfolding listening
  arm-Open out err l c r i = elim (Bool-cases r.settled) [
    | inl h ↦ ground (arith, h, i.unsettled)
    | inr h ↦ rw h (record {
      unsettled = refl;
      none_yet = i.none_yet;
      out_is = i.out_is;
      err_is = i.err_is;
      listening_is = i.listening_is;
      cancelled_is = i.cancelled_is;
    })
  ]

  pub request_cancel-Open :
      (out err : Bytes) (l c : Bool) (r : Run D E)
      → Open out err l c r
      → Open out err false true (request_cancel decode write flush o none r)
  unfolding request_cancel
  request_cancel-Open out err l c r i =
      arm-Open out err false true (asked r) (asked-Open out err l c r i)

  pub arm-settled : (r : Run D E) → r.settled ≡ true → arm r ≡ r
  arm-settled r h = rw h refl

  -- A cancellation leaves the run open, or settles it if the child closes at once.
  pub request_cancel-settles :
      (out err : Bytes) (l c : Bool) (x : Option ℕ) (r : Run D E)
      → Open out err l c r
      → let s = request_cancel decode write flush o (some x) r in
        (s.settled ≡ true)
        × (settlements s.effects
            ≡ resolved (record {
              stdout = decode out;
              stderr = decode err;
              exit_code = x;
              cancelled = true;
            })
              ∷ [])
  unfolding request_cancel
  request_cancel-settles out err l c x r i =
      let (k, h) =
        settle_result-settles out err false true x (asked r) (asked-Open out err l c r i) in
      let e = arm-settled (settle_result decode write flush o x (asked r)) k in
      (ap (λ s. s.settled) e ∙ k, ap (λ s. settlements s.effects) e ∙ h)

  pub on_cancel-ignored :
      (closes : Option (Option ℕ)) (r : Run D E)
      → listening r ≡ false
      → step decode write flush o (cancel closes) r ≡ r
  unfolding step listening
  on_cancel-ignored closes r h = ground arith

  pub on_cancel-heard :
      (closes : Option (Option ℕ)) (r : Run D E)
      → listening r ≡ true
      → step decode write flush o (cancel closes) r ≡ request_cancel decode write flush o closes r
  unfolding step listening
  on_cancel-heard closes r h = ground arith
