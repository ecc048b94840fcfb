-- ===== src/Lib.antt =====
-- The core logic of the Databricks extension for VS Code: its locks, its login checks, its
-- child processes and their environment, its quoting of terminal commands, its choice of a
-- Python setup, its clusters, its bundles and the monitors of their runs, and its reader of
-- chat replies; and of its companion, the command-line program databricks-execute.
--
-- The parts, with their sources under packages/databricks-vscode/src:
-- - Prelude: Boolean tests, lists, texts as code units, and decimal numbers, for all other files.
-- - Locking: locking/Mutex.ts (Mutex: wait, signal; Fifo: synchronise), locking/RWLock.ts (RwLock)
--   and locking/CachedValue.ts (CachedValue). A method is cut at its `await`s, and each event runs
--   one task from one `await` to the next, so that a list of events is an interleaving. RwLock and
--   CachedValue use the mutex of Mutex.
-- - Shell: utils/shellUtils.ts. Shell/Readers has independent readers of quoted words, written
--   from the rules of the shells.
-- - Auth: configuration/auth/orchestrate.ts (Orchestrate), AzureCliCheck.ts (AzureCliCheck) and
--   DatabricksCliCheck.ts (DatabricksCliCheck). The two checks are records of steps that the loop
--   runs; AzureCliCheck writes its command line with Shell.
-- - PythonSetup: language/packageManagerDetection.ts (Detection), and of python-setup/utils:
--   pythonSetupGate.ts (Gate, which reads what Detection finds), serverlessVersionScoring.ts
--   (Scoring), the versions that it weighs (Observations: bundleServerlessVersions.ts,
--   notebookServerlessVersions.ts, pyprojectServerlessVersion.ts, serverlessVersionObservations.ts and
--   serverlessVersionResolver.ts), setupLocalArgs.ts (SetupArgs) and setupProgress.ts (Progress).
-- - BundleRun: bundle/run/types.ts and BundleRunStatus.ts (RunState), JobRunStatus.ts (Job),
--   PipelineRunStatus.ts (Pipeline), and ui/bundle-resource-explorer/utils/RunStateUtils.ts
--   (RunView), which shows what a monitor has found.
-- - LmChat: lm-chat/unityGatewayResponses.ts, the event stream of a reply (Json, Stream, Replies)
--   and the items of a request (Request), with what each event means by the protocol (Meaning);
--   lm-chat/UnityGatewayResponsesClient.ts, from the texts of its reads to the events of the stream
--   (Events).
-- - Bundle: bundle/models/BundleRemoteStateModel.ts (RemoteState), the commands of a bundle with the
--   changes of its settings in between, over the cache of Locking/CachedValue; BundleVariableModel.ts
--   (Variables), the variables of a bundle and their overrides.
-- - Cli: cli/cliProcess.ts, a child process from its spawn to the end of its promise (Process), its
--   command line and the end of its process tree (Spawn). A listener of `run` is an event.
-- - Sync: cli/DatabricksCliSyncParser.ts, the output of the synchronization.
-- - Features: feature-manager/MultiStepAccessVerfier.ts, the steps of a feature's access check.
-- - Clusters: cluster/ClusterLoader.ts, its loops and its map, with any interleaving of its tasks.
-- - Sdk: sdk-extensions/Cluster.ts (Cluster: the start and the permissions of a cluster; Runtime: its
--   version, with the check of configuration/DatabricksWorkspace.ts), and Command.ts with canExecute
--   of Cluster.ts (Command). The polls of a retry are a list.
-- - Environment: utils/envVarGenerators.ts (Vars) and utils/network/proxyAgent.ts (Proxy), the variables
--   of child processes, and the hosts, certificates and agents of requests.
-- - Execute: packages/databricks-execute/src, the program that uploads a bundle and runs a local
--   file of it: cli.ts, its arguments (Args) and `main` (Main), init.ts (Init), and of core.ts the
--   program that it sends (Bootstrap), its output (Output) and its paths (Paths); of the extension,
--   run/ErrorParser.ts (Frames) and sdk-extensions/WorkflowRun.ts (Main/WorkflowRun). Main/Call is
--   the monad of a run: the calls made so far, the exit code, and errors; Main/World is what answers
--   them. A forced exit of the process by the handler of SIGINT drops the acts of a run that have not
--   happened yet. Main/Program composes Main/Bundle, Main/Cluster, Main/Notebook and Main/Python in
--   the order of the code.
-- The modules named Laws, Safety, Progress below RwLock, Runs, RunId, Quoting, Echo, Tally,
-- Ranking, Replies, Actions, Replay, Reports, Availability, Printed, Boundary, Arguments,
-- Dollars, Targets, Waiting, Loops, Steps, Verdict, Conduct, Streams, Chunks, Written, Sound,
-- Snapshots, Starting, Versions, Responses, EnvFile, Bypass, Leader, Walks, Decision,
-- Overrides, Holds, Leaves and those below Protocol hold proofs, and the modules named Tests
-- the runs at concrete inputs.
--
-- Names are those of the source in snake case: `readerEntry` up to its second `await` is
-- `enter_reader`, `getSimplifiedJobRunState` is `get_simplified_job_run_state`.
--
-- Parameters. The workspace, the CLIs, the terminal and the user are records of functions on a
-- state of the surroundings (`Env`); the regular expressions on error messages and on the output
-- of a pipeline, `JSON.parse`, `JSON.stringify`, the comparisons of lodash and the getter of a
-- cached value are arguments or events. Events at which no task waits change nothing. For the
-- command-line program, an answer can depend on all calls before it.
--
-- Fuel. The loop of `orchestrate` counts `maxSteps` down, which is the code's own limit: 20
-- for Azure and 6 for the Databricks CLI. The digits of a number n are written with fuel n +
-- 1. The loop of `WorkflowRun.wait` takes one poll a turn, and has not settled when there is
-- no further one. So do the retries of the SDK around a cluster and a command, which time out
-- without a further poll: the time limit of the SDK is the length of that list. All else is
-- structural recursion.
--
-- Bounds. Counters and times are natural numbers, exact as in JavaScript below 2 ^ 53; JSON
-- numbers are natural too; the code looks at one only as the version of an environment. Texts
-- are lists of UTF-16 code units. An object that is used as a map is the list of its members; the
-- keys that JavaScript treats in a way of their own, `__proto__` and numbers, are not told apart.
--
-- Not modelled: HTTP, files, YAML, the SDK, the tree views and windows of VS Code, logging and
-- telemetry; of the files above, the choice of the shell, the scans for package managers, the
-- tools of a request to the gateway, the ticker of the progress line, the time stamps of
-- pipeline events, the per-key listeners of a cached value, and the texts of dates and
-- durations; of databricks-execute, its status lines and help, and the text of a notebook page;
-- of the cluster loader, which clusters a load shows and in which
-- order; of the remote state of a bundle, its mutex, so that more interleavings are covered
-- than can happen; of the environment, the user agent and the cache of certificates; of a
-- cluster, its addresses, its listings and its stop.
pub mod Prelude
pub mod Locking
pub mod Shell
pub mod Auth
pub mod PythonSetup
pub mod BundleRun
pub mod LmChat
pub mod Sync
pub mod Features
pub mod Execute
pub mod Cli
pub mod Bundle
pub mod Sdk
pub mod Environment
pub mod Clusters
