-- ===== src/Sdk/Cluster.antt =====
-- sdk-extensions/Cluster.ts: who may run code on a cluster, and how it is started. The service of the
-- clusters answers by polls; `retry` of the SDK calls its function again as long as that throws a
-- `RetriableError`, and times out when there is no further poll.
pub mod Starting
use databricks_vscode.Prelude.{
  ℕ, Bool, true, false, ◌&&◌, ◌||◌, Option, none, some, List, [], ◌∷◌, ◌++◌, Text, codes, same, any,
  if◌then◌else◌,
}

-- `compute.State`; all other states are `other_state`.
pub data State : Type 0 where
  running terminated error unknown terminating other_state : State

abbrev pub is_running : State → Bool
is_running running = true
is_running _ = false

abbrev pub is_terminating : State → Bool
is_terminating terminating = true
is_terminating _ = false

-- The states in which `start` asks for a start at once.
abbrev pub is_down : State → Bool
is_down terminated = true
is_down error = true
is_down unknown = true
is_down _ = false

-- What `start` does: it gets the details, tells the progress, and asks for a start.
pub data Act : Type 0 where
  got : State → Act
  told : State → Act
  asked_to_start : Act

-- How `start` ends: it returns, throws a `ClusterError`, or times out.
pub data Ending : Type 0 where
  returned failed timed_out : Ending

-- One call of the function that is retried: whether the token is cancelled, and what a refresh gets.
pub record Poll : Type 0 where
  pub cancelled : Bool
  pub state : State

-- `acts` has the newest first.
pub record Start : Type 0 where
  pub state : State
  pub acts : List Act
  pub ending : Ending

abbrev pub refreshed : State → Start → Start
refreshed x s = record s { state = x; acts = told x ∷ got x ∷ s.acts }

abbrev pub end_with : Ending → Start → Start
end_with e s = record s { ending = e }

-- The first `retry`: the cluster is waited for while it terminates.
unfoldable pub wait_terminated : List Poll → Start → Start
wait_terminated [] s = end_with timed_out s
wait_terminated (p ∷ ps) s =
    let next = refreshed p.state s in
    let later = wait_terminated ps next in
    if p.cancelled
    then end_with returned s
    else if is_terminating p.state
    then later
    else end_with returned next

abbrev pub ask_start : Start → Start
ask_start s = record s { acts = asked_to_start ∷ s.acts }

-- The `switch` of the second `retry`: `none` is a `ClusterRetriableError`.
abbrev pub ending_in : State → Option Ending
ending_in running = some returned
ending_in terminated = some failed
ending_in error = some failed
ending_in _ = none

unfoldable pub wait_running : List Poll → Start → Start
wait_running [] s = end_with timed_out s
wait_running (p ∷ ps) s =
    let next = refreshed p.state s in
    let later = wait_running ps next in
    if p.cancelled
    then end_with returned s
    else elim (ending_in p.state) [ none ↦ later | some e ↦ end_with e next ]

abbrev pub has_timed_out : Ending → Bool
has_timed_out timed_out = true
has_timed_out _ = false

unfoldable pub then_running : List Poll → Start → Start
unfolding wait_running
then_running ps s = if has_timed_out s.ending then s else wait_running ps (ask_start s)

-- `start`, with the first refresh and the polls of the two loops.
unfoldable pub start : State → (stopping starting : List Poll) → Start
unfolding wait_terminated wait_running then_running
start first stopping starting =
    let s : Start = refreshed first (record { state = first; acts = []; ending = returned }) in
    let waited = wait_terminated stopping s in
    if is_running first
    then s
    else if is_down first
    then wait_running starting (ask_start s)
    else if is_terminating first
    then then_running starting waited
    else wait_running starting s

pub record AccessControl : Type 0 where
  pub user_name : Option Text
  pub group_name : Option Text

-- A group whose `display` is missing is `none`; a user without groups has an empty list.
pub record User : Type 0 where
  pub user_name : Option Text
  pub groups : List (Option Text)

-- `===` of two texts that can be missing.
abbrev pub same_option : Option Text → Option Text → Bool
same_option none none = true
same_option (some s) (some t) = same s t
same_option _ _ = false

abbrev pub or_empty : Option Text → Text
or_empty none = []
or_empty (some s) = s

-- `accessMode`, or `data_security_mode` where it is missing.
abbrev pub mode_of : (access_mode data_security_mode : Option Text) → Option Text
mode_of none mode = mode
mode_of (some mode) _ = some mode

abbrev pub single_user_modes : List Text
single_user_modes =
    codes "SINGLE_USER"
    ∷ codes "LEGACY_SINGLE_USER_PASSTHROUGH"
    ∷ codes "LEGACY_SINGLE_USER_STANDARD"
    ∷ codes "LEGACY_SINGLE_USER"
    ∷ []

abbrev pub is_single_user : Option Text → Bool
is_single_user none = false
is_single_user (some mode) = any (same mode) single_user_modes

abbrev pub uc_modes : List Text
uc_modes = codes "SINGLE_USER" ∷ codes "SHARED" ∷ codes "USER_ISOLATION" ∷ []

abbrev pub is_uc : Option Text → Bool
is_uc none = false
is_uc (some mode) = any (same mode) uc_modes

-- The function of `find`.
abbrev pub grants : User → AccessControl → Bool
grants user ac =
    same_option ac.user_name user.user_name
    || same_option ac.group_name (some (codes "users"))
    || any (same_option (some (or_empty ac.group_name))) user.groups

-- `hasExecutePerms`, with the permissions that the service would answer.
unfoldable pub has_execute_perms :
    (mode single_user_name : Option Text) → List AccessControl → Option User → Bool
has_execute_perms mode single_user_name controls none = false
has_execute_perms mode single_user_name controls (some user) =
    if is_single_user mode
    then same_option single_user_name user.user_name
    else any (grants user) controls
