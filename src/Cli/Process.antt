-- ===== src/Cli/Process.antt =====
-- cli/cliProcess.ts: one run of a child process. Events run the listeners of `run`; `effects` are what
-- the run does to the world, the newest first. The decoders of Node are parameters: `decode` turns
-- bytes into text at once, `write` and `flush` are those of a `StringDecoder` with the state `D`. `E`
-- are errors. A listener that throws is not modelled.
pub mod Steps
pub mod Verdict
pub mod Conduct
pub mod Streams
use databricks_vscode.Prelude.{
  ℕ, Bool, true, false, not, ◌&&◌, ◌||◌, Option, none, some, List, [], ◌∷◌, ◌++◌, Text,
  if◌then◌else◌,
}

abbrev pub Bytes : Type 0
Bytes = List ℕ

-- `CliRunResult`; the exit code is `none` for a process that a signal killed.
pub record CliRunResult : Type 0 where
  pub stdout : Text
  pub stderr : Text
  pub exit_code : Option ℕ
  pub cancelled : Bool

-- The two terminators, the two callbacks, and the ends of the promise.
pub data Effect (E : Type 0) : Type 0 where
  terminated force_terminated : Effect E
  told_stdout told_stderr : Text → Effect E
  resolved : CliRunResult → Effect E
  rejected : E → Effect E

-- `forceKillTimer`: not set or cleared, running, or over.
pub data Timer : Type 0 where
  unset armed over : Timer

pub data Subscription : Type 0 where
  absent live disposed : Subscription

pub record Run (D E : Type 0) : Type 0 where
  pub settled : Bool
  pub cancelled : Bool
  pub stdout_chunks : List Bytes
  pub stderr_chunks : List Bytes
  pub stdout_decoder : D
  pub stderr_decoder : D
  pub force_kill_timer : Timer
  pub cancel_sub : Subscription
  pub effects : List (Effect E)

-- `options.token`: missing, not cancelled yet, or firing while `run` subscribes. A terminator may make
-- the child close before it returns; `closes` is then the exit code of the child.
pub data Token : Type 0 where
  no_token quiet : Token
  fires : (closes : Option (Option ℕ)) → Token

-- `on_stdout` and `on_stderr` tell which callbacks there are.
pub record Options : Type 0 where
  pub token : Token
  pub on_stdout : Bool
  pub on_stderr : Bool

pub data Event (E : Type 0) : Type 0 where
  stdout_data stderr_data : Bytes → Event E
  stream_error child_error : E → Event E
  close : (exit_code : Option ℕ) → Event E
  cancel : (closes : Option (Option ℕ)) → Event E
  grace_over : Event E

-- `Buffer.concat`
abbrev pub concat : List Bytes → Bytes
concat [] = []
concat (b ∷ bs) = b ++ concat bs

-- `if (text) { callback(text); }`, where there is a callback.
abbrev pub tell : {E : Type 0} → (Text → Effect E) → Bool → Text → List (Effect E) → List (Effect E)
tell how false s done = done
tell how true [] done = done
tell how true (c ∷ s) done = how (c ∷ s) ∷ done

abbrev pub dispose : Subscription → Subscription
dispose absent = absent
dispose live = disposed
dispose disposed = disposed

module _ {D E : Type 0} where
  -- `finish`, up to `fn()`, for a run that has not settled.
  abbrev pub close_down : Run D E → Run D E
  close_down r = record r {
    settled = true;
    force_kill_timer = unset;
    cancel_sub = dispose r.cancel_sub;
  }

  abbrev pub finish : (Run D E → Run D E) → Run D E → Run D E
  finish fn r = if r.settled then r else fn (close_down r)

  abbrev pub act : Effect E → Run D E → Run D E
  act e r = record r { effects = e ∷ r.effects }

  abbrev pub arm : Run D E → Run D E
  arm r = if r.settled then r else record r { force_kill_timer = armed }

  -- The run with its listeners attached, before it subscribes.
  abbrev pub fresh : D → Run D E
  fresh d = record {
    settled = false;
    cancelled = false;
    stdout_chunks = [];
    stderr_chunks = [];
    stdout_decoder = d;
    stderr_decoder = d;
    force_kill_timer = unset;
    cancel_sub = absent;
    effects = [];
  }

  -- The assignment of `cancelSub` and the test behind it.
  abbrev pub subscribed : Run D E → Run D E
  subscribed r = record r { cancel_sub = if r.settled then disposed else live }

module _ {D E : Type 0} (decode : Bytes → Text) (write : D → Bytes → D × Text) (flush : D → Text)
    (o : Options) where
  -- The function inside `settleResult`.
  abbrev pub resolve_with : Option ℕ → Run D E → Run D E
  resolve_with exit_code r =
      let told = tell told_stdout o.on_stdout (flush r.stdout_decoder) r.effects in
      let told = tell told_stderr o.on_stderr (flush r.stderr_decoder) told in
      let result : CliRunResult = record {
        stdout = decode (concat r.stdout_chunks);
        stderr = decode (concat r.stderr_chunks);
        exit_code = exit_code;
        cancelled = r.cancelled;
      } in
      record r { effects = resolved result ∷ told }

  unfoldable pub settle_result : Option ℕ → Run D E → Run D E
  settle_result exit_code r = finish (resolve_with exit_code) r

  abbrev pub may_close : Option (Option ℕ) → Run D E → Run D E
  unfolding settle_result
  may_close none r = r
  may_close (some exit_code) r = settle_result exit_code r

  unfoldable pub request_cancel : Option (Option ℕ) → Run D E → Run D E
  unfolding settle_result
  request_cancel closes r = arm (may_close closes (act terminated (record r { cancelled = true })))

  unfoldable pub reject_from_stream_error : E → Run D E → Run D E
  reject_from_stream_error e r = finish (λ q. act (rejected e) (act terminated q)) r

  abbrev pub on_child_error : E → Run D E → Run D E
  on_child_error e r = finish (act (rejected e)) r

  -- The listeners of the two streams. A decoder is used only where there is a callback.
  abbrev pub stdout_text : Bool → Bytes → Run D E → Run D E
  stdout_text false b r = r
  stdout_text true b r =
      let (d, s) = write r.stdout_decoder b in
      record r { stdout_decoder = d; effects = tell told_stdout true s r.effects }

  abbrev pub stderr_text : Bool → Bytes → Run D E → Run D E
  stderr_text false b r = r
  stderr_text true b r =
      let (d, s) = write r.stderr_decoder b in
      record r { stderr_decoder = d; effects = tell told_stderr true s r.effects }

  unfoldable pub on_stdout_data : Bytes → Run D E → Run D E
  on_stdout_data b r =
      stdout_text o.on_stdout b (record r { stdout_chunks = r.stdout_chunks ++ b ∷ [] })

  unfoldable pub on_stderr_data : Bytes → Run D E → Run D E
  on_stderr_data b r =
      stderr_text o.on_stderr b (record r { stderr_chunks = r.stderr_chunks ++ b ∷ [] })

  -- A token fires once, and not to a subscription that is disposed of.
  abbrev pub on_cancel : Subscription → Option (Option ℕ) → Run D E → Run D E
  unfolding request_cancel
  on_cancel live closes r = if r.cancelled then r else request_cancel closes r
  on_cancel _ closes r = r

  -- The callback of `forceKillTimer`.
  abbrev pub on_timer : Timer → Run D E → Run D E
  on_timer armed r =
      let r = record r { force_kill_timer = over } in
      if r.settled then r else act force_terminated r
  on_timer _ r = r

  unfoldable pub step : Event E → Run D E → Run D E
  unfolding settle_result request_cancel reject_from_stream_error on_stdout_data on_stderr_data
  step (stdout_data b) r = on_stdout_data b r
  step (stderr_data b) r = on_stderr_data b r
  step (stream_error e) r = reject_from_stream_error e r
  step (child_error e) r = on_child_error e r
  step (close exit_code) r = settle_result exit_code r
  step (cancel closes) r = on_cancel r.cancel_sub closes r
  step grace_over r = on_timer r.force_kill_timer r

  unfoldable pub run : List (Event E) → Run D E → Run D E
  run [] r = r
  run (e ∷ es) r = run es (step e r)

  unfoldable pub subscribe : Token → Run D E → Run D E
  unfolding request_cancel
  subscribe no_token r = r
  subscribe quiet r = subscribed r
  subscribe (fires closes) r = subscribed (request_cancel closes r)

  -- `run` behind a spawn that succeeds.
  unfoldable pub start : D → Run D E
  unfolding subscribe
  start d = subscribe o.token (fresh d)
