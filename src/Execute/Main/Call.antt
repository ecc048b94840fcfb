-- ===== src/Execute/Main/Call.antt =====
-- A run of `main` of cli.ts: the surroundings, the calls made of them, and the monad of `async`
-- functions that can throw.
use databricks_vscode.Prelude.{
  ℕ, Bool, false, Option, none, some, List, [], ◌∷◌, ◌++◌, Text, ◌==◌, if◌then◌else◌,
}

abbrev pub Members : Type 0
Members = List (Text × Text)

-- An error with a message, and with the `logs`, the `error` and the `error_trace` of the response if
-- it is an error of the API.
pub record Failure : Type 0 where
  pub code : Text
  pub message : Text
  pub logs : Option Text
  pub error : Option Text
  pub error_trace : Option Text

-- How a promise settles.
pub data Reply (A : Type 0) : Type 0 where
  answers : A → Reply A
  throws : Failure → Reply A

-- What `runDatabricksCli` resolves to; it counts a CLI that a signal has ended as one that ended
-- with code 0.
pub record Finished : Type 0 where
  pub stdout : Text
  pub stderr : Text
  pub code : ℕ

-- A child process that has closed: its output, and its exit code unless a signal has ended it.
pub record Closed : Type 0 where
  pub stdout : Text
  pub stderr : Text
  pub code : Option ℕ

-- `code ?? 0`
abbrev pub code_or_zero : Option ℕ → ℕ
code_or_zero none = 0
code_or_zero (some n) = n

abbrev pub finished : Closed → Finished
finished c = record { stdout = c.stdout; stderr = c.stderr; code = code_or_zero c.code }

-- How the promise of `runDatabricksCli` settles.
abbrev pub finished_reply : Reply Closed → Reply Finished
finished_reply (answers c) = answers (finished c)
finished_reply (throws e) = throws e

-- What is known of a run of a job: `details` of a `WorkflowRun`.
pub record Details : Type 0 where
  pub life_cycle_state : Option Text
  pub result_state : Option Text
  pub has_tasks : Bool

-- The calls of the Databricks CLI.
pub data Command : Type 0 where
  version : Command
  validate sync : (target : Option Text) → Command
  auth_env : (host : Text) → Command

pub data Compute : Type 0 where
  serverless_compute : Compute
  existing_cluster : (id : Text) → Compute

pub record Submission : Type 0 where
  pub notebook_path : Text
  pub base_parameters : Members
  pub compute : Compute

-- What has been done so far. A cluster and a context are named by their id.
pub data Act : Type 0 where
  spawned : Command → Members → Reply Closed → Act
  found : (cluster state : Text) → Act
  started : (cluster : Text) → Act
  created : (cluster context : Text) → Act
  executed : (cluster context command : Text) → Act
  destroyed : (context : Text) → Act
  submitted : Submission → Act
  run_cancelled : Act
  wrote wrote_error : Text → Act

-- The acts, the last first, and `process.exitCode`.
pub record State : Type 0 where
  pub history : List Act
  pub exit_code : Option ℕ

-- `exited` is a call of `process.exit`; `pending` is a promise that has not settled.
pub data Outcome (A : Type 0) : Type 0 where
  done : A → Outcome A
  threw : Failure → Outcome A
  exited : ℕ → Outcome A
  pending : Outcome A

abbrev pub Cli : Type 0 → Type 0
Cli A = State → Outcome A × State

abbrev pub Done : Type 0
Done = Unit

module _ {A : Type 0} where
  abbrev pub pure : A → Cli A
  pure a s = (done a, s)

  abbrev pub throw : Failure → Cli A
  throw e s = (threw e, s)

  abbrev pub exit : ℕ → Cli A
  exit n s = (exited n, s)

  abbrev pub wait_on : Cli A
  wait_on s = (pending, s)

abbrev pub act : Act → Cli Done
act a s = (done tt, record s { history = a ∷ s.history })

abbrev pub set_exit_code : ℕ → Cli Done
set_exit_code n s = (done tt, record s { exit_code = some n })

infixl 5 ◌>>=◌ ◌>>◌
abbrev pub next : {A B : Type 0} → (A → Cli B) → Outcome A × State → Outcome B × State
next f (done a, s) = f a s
next f (threw e, s) = (threw e, s)
next f (exited n, s) = (exited n, s)
next f (pending, s) = (pending, s)

unfoldable pub ◌>>=◌ : {A B : Type 0} → Cli A → (A → Cli B) → Cli B
◌>>=◌ m f s = next f (m s)

abbrev pub ◌>>◌ : {A B : Type 0} → Cli A → Cli B → Cli B
m >> k = m >>= λ _. k

-- `try { m } catch (e) { f(e) }`
abbrev pub handle : {A : Type 0} → (Failure → Cli A) → Outcome A × State → Outcome A × State
handle f (done a, s) = (done a, s)
handle f (threw e, s) = f e s
handle f (exited n, s) = (exited n, s)
handle f (pending, s) = (pending, s)

unfoldable pub catch : {A : Type 0} → Cli A → (Failure → Cli A) → Cli A
catch m f s = handle f (m s)

-- `try { m } finally { last }`
unfoldable pub ended : {A : Type 0} → Cli Done → Outcome A × State → Outcome A × State
unfolding ◌>>=◌
ended last (done a, s) = (last >>= λ _. pure a) s
ended last (threw e, s) = (last >>= λ _. throw e) s
ended last (exited n, s) = (exited n, s)
ended last (pending, s) = (pending, s)

unfoldable pub finally : {A : Type 0} → Cli A → Cli Done → Cli A
unfolding ended
finally m last s = ended last (m s)

abbrev pub plain_failure : Text → Failure
plain_failure m = record { code = []; message = m; logs = none; error = none; error_trace = none }

-- `fail`
unfoldable pub fail : {A : Type 0} → Text → Cli A
fail m s = (threw (plain_failure m), record s { exit_code = some 1 })

unfoldable pub fail_if : Bool → Text → Cli Done
unfolding fail
fail_if c m = if c then fail m else pure tt

unfoldable pub or_fail : {A : Type 0} → Option A → Text → Cli A
unfolding fail
or_fail none m = fail m
or_fail (some a) m = pure a

-- A call whose answer depends on what has been done before.
abbrev pub settle : {A : Type 0} → Reply A → Cli A
settle (answers a) = pure a
settle (throws e) = throw e

unfoldable pub ask : {A : Type 0} → (List Act → Reply A) → Cli A
ask f s = settle (f s.history) s

-- A text with a line end behind it.
abbrev pub ends_line : Text → Bool
ends_line [] = false
ends_line (c ∷ []) = c == 10
ends_line (c ∷ d ∷ s) = ends_line (d ∷ s)

abbrev pub with_line_end : Text → Text
with_line_end s = if ends_line s then s else s ++ 10 ∷ []

abbrev pub when_present : (Text → Cli Done) → Option Text → Cli Done
when_present f none = pure tt
when_present f (some []) = pure tt
when_present f (some (c ∷ s)) = f (c ∷ s)

abbrev pub print_trace : Option Text → Cli Done
print_trace none = pure tt
print_trace (some trace) = act (wrote_error (trace ++ 10 ∷ []))

-- `printApiErrorDetails`
unfoldable pub print_api_error_details : Failure → Cli Done
print_api_error_details e = do
  when_present (λ logs. act (wrote (with_line_end logs))) e.logs
  when_present (λ error. act (wrote_error (error ++ 10 ∷ []))) e.error
  print_trace e.error_trace
